-- ===== src/Http.antt =====
-- include/http.hpp and src/http.cpp: a request of the HTTP protocol. What libcurl tells of the
-- response is a parameter. A list that is empty is nullptr.
pub mod Laws
pub mod Headers
pub mod History
pub mod Wired
pub mod Requests
pub mod Launch
pub mod Stale
pub mod Bodies
pub mod Verbs
use curlev.Prelude.{
  ℕ, Bool, true, false, ◌&&◌, Option, none, some, List, [], ◌∷◌, ◌==◌, if◌then◌else◌, is_empty,
  and_then, not, Bytes, codes,
}
use curlev.Prelude.Int.{ℤ}
use curlev.MapUtils.{KeyValues, append_url_encoded}
use curlev.StringUtils.{find}
use curlev.Libcurl.{Libcurl, Setting, set_to, text, slist}
use curlev.Libcurl as Curl
use curlev.CurlUtils.{
  c_str, set_all, easy_setopt, curl_slist_checked_append, curl_header_checked_append,
}
use curlev.Mime.{Part, Calls}
use curlev.Transfer
use curlev.Defaults.{Defaults}
use curlev.Wrapper.{
  Wrapper, Protocol, do_if_idle, clear, prepare_request_body, is_running, get_code, start,
}
use curlev.Wrapper.Configure.{threaded_callback}
use curlev.Wrapper.Codes.{error_url_set, error_headers_set, error_body_set, error_mime_set}
use curlev.Building.{or_fail, append_headers, post_mime}

-- The members of HTTP.
pub record Http : Type 0 where
  pub response_content_type : Bytes
  pub response_redirect_url : Bytes
  pub curl_headers : List Bytes
  pub curl_mime : Option Calls

abbrev pub fresh : Http
fresh = record {
  response_content_type = [];
  response_redirect_url = [];
  curl_headers = [];
  curl_mime = none;
}

-- CURLINFO_CONTENT_TYPE and CURLINFO_REDIRECT_URL, where libcurl gives them.
pub record Info : Type 0 where
  pub content_type : Option Bytes
  pub redirect_url : Option Bytes

abbrev or_else : Option Bytes → Bytes → Bytes
or_else none old = old
or_else (some new) old = new

unfoldable pub release_curl_extras : Http → Http
release_curl_extras p = record p { curl_headers = []; curl_mime = none }

unfoldable pub prepare_protocol : Libcurl → Wrapper Http → Wrapper Http × Bool
prepare_protocol lib w =
    let (headers, ok) = curl_slist_checked_append lib w.protocol.curl_headers (codes "Expect: ") in
    let w1 = record w { protocol = record (w.protocol) { curl_headers = headers } } in
    if ok
    then (let (curl, set) = easy_setopt lib w.curl (set_to Curl.httpheader (slist headers)) in
        (record w1 { curl = curl }, set))
    else (w1, false)

unfoldable pub finalize_protocol : Info → Wrapper Http → Wrapper Http
unfolding release_curl_extras
finalize_protocol info w = record w {
  protocol = release_curl_extras (record (w.protocol) {
    response_content_type = or_else info.content_type w.protocol.response_content_type;
    response_redirect_url = or_else info.redirect_url w.protocol.response_redirect_url;
  });
}

unfoldable pub clear_protocol : Wrapper Http → Wrapper Http
unfolding release_curl_extras
clear_protocol w = record w {
  protocol = record (release_curl_extras w.protocol) {
    response_content_type = [];
    response_redirect_url = [];
  };
}

unfoldable pub http : Libcurl → Info → Protocol Http
unfolding prepare_protocol finalize_protocol clear_protocol
http lib info = record {
  prepare_protocol = prepare_protocol lib;
  finalize_protocol = finalize_protocol info;
  clear_protocol = clear_protocol;
}

-- `m_curl_mime == nullptr && request_body().empty()`
unfoldable pub has_no_body : Wrapper Http → Bool
has_no_body w = elim (w.protocol.curl_mime) [ none ↦ is_empty w.base.request_body | some _ ↦ false ]

-- `already_has_parameters ? '&' : '?'`
abbrev pub first_separator : Option ℕ → ℕ
first_separator none = b'?'
first_separator (some i) = b'&'

abbrev pub request_settings : Bytes → Bytes → List Setting
request_settings method url =
    set_to Curl.customrequest (text (c_str method)) ∷ set_to Curl.url (text (c_str url)) ∷ []

module _ (lib : Libcurl) (info : Info) (d : Defaults) where
  pub request_cleared : Bytes → Bytes → KeyValues → Wrapper Http → Wrapper Http
  request_cleared method url query w =
      let full = append_url_encoded url query (first_separator (find b'?' url)) b'&' in
      let (curl, ok) = set_all lib w.curl (request_settings method full) in
      or_fail error_url_set (record w { curl = curl }, ok)

  -- REQUEST
  unfoldable pub request : Bytes → Bytes → KeyValues → Wrapper Http → Wrapper Http
  unfolding request_cleared
  request method url query =
      do_if_idle λ w. request_cleared method url query (clear (http lib info) d w)

  with_headers : Wrapper Http → List Bytes × Bool → Wrapper Http × Bool
  with_headers w (headers, ok) =
      (record w { protocol = record (w.protocol) { curl_headers = headers } }, ok)

  unfoldable pub add_headers : KeyValues → Wrapper Http → Wrapper Http
  unfolding with_headers
  add_headers headers = do_if_idle λ w.
      or_fail error_headers_set
        (with_headers w (append_headers lib w.protocol.curl_headers headers))

  pub body_set : Bytes → Bytes → Wrapper Http → Wrapper Http
  unfolding with_headers
  body_set content_type body w =
      let w1 = record w { base = Transfer.set_request_body body w.base } in
      or_fail error_body_set (
        and_then
          (with_headers w1 (
            curl_header_checked_append lib w1.protocol.curl_headers (codes "Content-Type")
              content_type))
          (prepare_request_body lib))

  unfoldable pub set_body : Bytes → Bytes → Wrapper Http → Wrapper Http
  unfolding body_set
  set_body content_type body =
      do_if_idle λ w. if has_no_body w then body_set content_type body w else w

  unfoldable pub set_parameters : KeyValues → Wrapper Http → Wrapper Http
  set_parameters parameters =
      set_body (codes "application/x-www-form-urlencoded") (append_url_encoded [] parameters 0 b'&')

  pub mime_set : List Part → Wrapper Http → Wrapper Http
  mime_set parts w =
      let ((document, curl), ok) = post_mime lib w.curl parts in
      or_fail error_mime_set
        (record w { curl = curl; protocol = record (w.protocol) { curl_mime = document } }, ok)

  unfoldable pub set_mime : List Part → Wrapper Http → Wrapper Http
  unfolding mime_set
  set_mime parts = do_if_idle λ w. if has_no_body w then mime_set parts w else w

  -- `launch`: the callback makes the response.
  unfoldable pub launch : (ℕ → Bool) → ℕ → Bool → Wrapper Http → Wrapper Http
  launch throws cb accepted w =
      start (http lib info) lib throws (some cb) accepted (threaded_callback false w)

-- The accessors: nothing is shown while a transfer runs.
unfoldable pub get_headers : Wrapper Http → KeyValues
unfolding is_running
get_headers w = if is_running w then [] else w.base.response_headers

unfoldable pub get_body : Wrapper Http → Bytes
unfolding is_running
get_body w = if is_running w then [] else w.base.response_body

unfoldable pub get_content_type : Wrapper Http → Bytes
unfolding is_running
get_content_type w = if is_running w then [] else w.protocol.response_content_type

unfoldable pub get_redirect_url : Wrapper Http → Bytes
unfolding is_running
get_redirect_url w = if is_running w then [] else w.protocol.response_redirect_url

-- HTTP::response
pub record Response : Type 0 where
  pub code : ℤ
  pub headers : KeyValues
  pub redirect_url : Bytes
  pub content_type : Bytes
  pub body : Bytes

-- The callback of `launch`, which moves the response out of the wrapper.
unfoldable pub take_response : Wrapper Http → Response × Wrapper Http
unfolding get_code
take_response w = (
  record {
    code = get_code w;
    headers = w.base.response_headers;
    redirect_url = w.protocol.response_redirect_url;
    content_type = w.protocol.response_content_type;
    body = w.base.response_body;
  },
  record w {
    base = (Transfer.take_response_body (Transfer.take_response_headers w.base).1).1;
    protocol = record (w.protocol) { response_content_type = []; response_redirect_url = [] };
  },
)
