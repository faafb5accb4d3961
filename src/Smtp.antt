-- ===== src/Smtp.antt =====
-- include/smtp.hpp and src/smtp.cpp: an email of the SMTP protocol. The date is a parameter. A list
-- that is empty is nullptr.
pub mod Laws
pub mod Headers
pub mod Operations
pub mod Message
pub mod History
pub mod Wired
pub mod Mails
use curlev.Prelude.{
  ℕ, Bool, true, false, Option, none, some, List, [], ◌∷◌, if◌then◌else◌, is_empty, and_then, Bytes,
  codes,
}
use curlev.Prelude.Int.{ℤ}
use curlev.MapUtils.{KeyValues}
use curlev.Libcurl.{Libcurl, Setting, set_to, text, slist}
use curlev.Libcurl as Curl
use curlev.CurlUtils.{c_str, set_all, curl_slist_checked_append, curl_header_checked_append}
use curlev.Mime.{Part, Calls}
use curlev.SmtpAddress.{Address, Mode, to, cc, bcc, get_addr_spec, get_name_addr}
use curlev.Transfer
use curlev.Defaults.{Defaults}
use curlev.Wrapper.{Wrapper, Protocol, do_if_idle, clear, prepare_request_body, get_code, start}
use curlev.Wrapper.Configure.{threaded_callback}
use curlev.Wrapper.Codes.{
  error_url_set, error_headers_set, error_body_set, error_mime_set, error_recipients_set,
}
use curlev.Building.{or_fail, append_headers, post_mime}

-- The members of SMTP.
pub record Smtp : Type 0 where
  pub request_sender : Address
  pub curl_recipients : List Bytes
  pub curl_headers : List Bytes
  pub curl_mime : Option Calls

abbrev pub fresh : Smtp
fresh = record {
  request_sender = record { address_spec = []; display_name = []; mode = to };
  curl_recipients = [];
  curl_headers = [];
  curl_mime = none;
}

unfoldable pub release_curl_extras : Smtp → Smtp
release_curl_extras p = record p { curl_recipients = []; curl_headers = []; curl_mime = none }

abbrev pub lists : List Bytes → List Bytes → List Setting
lists recipients headers =
    set_to Curl.mail_rcpt (slist recipients) ∷ set_to Curl.httpheader (slist headers) ∷ []

unfoldable pub prepare_protocol : Libcurl → Wrapper Smtp → Wrapper Smtp × Bool
prepare_protocol lib w =
    let (curl, ok) =
      set_all lib w.curl (lists w.protocol.curl_recipients w.protocol.curl_headers) in
    (record w { curl = curl }, ok)

unfoldable pub released : Wrapper Smtp → Wrapper Smtp
unfolding release_curl_extras
released w = record w { protocol = release_curl_extras w.protocol }

-- `finalize_protocol` and `clear_protocol` do the same.
unfoldable pub smtp : Libcurl → Protocol Smtp
unfolding prepare_protocol released
smtp lib = record {
  prepare_protocol = prepare_protocol lib;
  finalize_protocol = released;
  clear_protocol = released;
}

-- `m_curl_mime == nullptr && request_body().empty()`
unfoldable pub has_no_body : Wrapper Smtp → Bool
has_no_body w = elim (w.protocol.curl_mime) [ none ↦ is_empty w.base.request_body | some _ ↦ false ]

-- A test of `ok` that sets the code, in a function that returns `ok`.
abbrev pub checked : ℤ → Wrapper Smtp × Bool → Wrapper Smtp × Bool
checked code r = (or_fail code r, r.1)

abbrev pub send_settings : Bytes → Address → List Setting
send_settings url from =
    set_to Curl.url (text (c_str url))
    ∷ set_to Curl.mail_from (text (c_str (get_addr_spec from)))
    ∷ []

-- The header that names a recipient.
abbrev pub prefix : Mode → Bytes
prefix cc = codes "Cc"
prefix bcc = codes "Bcc"
prefix to = codes "To"

module _ (lib : Libcurl) (date : Bytes) (d : Defaults) where
  -- The loop of `fill_recipients`.
  unfoldable pub append_recipients : List Bytes → List Address → List Bytes × Bool
  append_recipients list [] = (list, true)
  append_recipients list (a ∷ as') =
      and_then (curl_slist_checked_append lib list (get_addr_spec a)) λ l. append_recipients l as'

  -- The loop of `fill_headers`.
  unfoldable pub append_names : List Bytes → List Address → List Bytes × Bool
  append_names headers [] = (headers, true)
  append_names headers (a ∷ as') =
      and_then (curl_header_checked_append lib headers (prefix a.mode) (get_name_addr a))
        λ hs. append_names hs as'

  unfoldable pub message_headers : Bytes → Address → List Address → List Bytes → List Bytes × Bool
  unfolding append_names
  message_headers subject from recipients headers =
      and_then (curl_header_checked_append lib headers (codes "Date") date) λ hs.
        and_then (curl_header_checked_append lib hs (codes "Subject") subject) λ hs.
          and_then (curl_header_checked_append lib hs (codes "From") (get_name_addr from))
            λ hs. append_names hs recipients

  unfoldable pub with_recipients : Wrapper Smtp → List Bytes × Bool → Wrapper Smtp × Bool
  with_recipients w (list, ok) =
      (record w { protocol = record (w.protocol) { curl_recipients = list } }, ok)

  unfoldable pub with_headers : Wrapper Smtp → List Bytes × Bool → Wrapper Smtp × Bool
  with_headers w (headers, ok) =
      (record w { protocol = record (w.protocol) { curl_headers = headers } }, ok)

  unfoldable pub fill_recipients : List Address → Wrapper Smtp → Wrapper Smtp × Bool
  unfolding with_recipients append_recipients
  fill_recipients recipients w =
      checked error_recipients_set
        (with_recipients w (append_recipients w.protocol.curl_recipients recipients))

  unfoldable pub fill_headers : Bytes → Address → List Address → Wrapper Smtp → Wrapper Smtp × Bool
  unfolding with_headers message_headers
  fill_headers subject from recipients w =
      checked error_headers_set
        (with_headers w (message_headers subject from recipients w.protocol.curl_headers))

  -- The test that there is no document yet comes first.
  unfoldable pub fill_body_mime : List Part → Wrapper Smtp → Wrapper Smtp × Bool
  fill_body_mime parts w = elim (w.protocol.curl_mime) [
    | some _ ↦ (w, false)
    | none ↦
        let ((document, curl), ok) = post_mime lib w.curl parts in
        checked error_mime_set
          (record w { curl = curl; protocol = record (w.protocol) { curl_mime = document } }, ok)
  ]

  unfoldable pub fill_body : Bytes → Wrapper Smtp → Wrapper Smtp × Bool
  fill_body body w =
      checked error_body_set
        (prepare_request_body lib (record w { base = Transfer.set_request_body body w.base }))

  pub send_cleared : Bytes → Address → Wrapper Smtp → Wrapper Smtp
  send_cleared url from w =
      let (curl, ok) = set_all lib w.curl (send_settings url from) in
      let w1 = or_fail error_url_set (record w { curl = curl }, ok) in
      record w1 { protocol = record (w1.protocol) { request_sender = from } }

  -- SEND
  unfoldable pub send : Bytes → Address → Wrapper Smtp → Wrapper Smtp
  unfolding send_cleared
  send url from = do_if_idle λ w. send_cleared url from (clear (smtp lib) d w)

  unfoldable pub add_headers : KeyValues → Wrapper Smtp → Wrapper Smtp
  unfolding with_headers
  add_headers headers = do_if_idle λ w.
      or_fail error_headers_set
        (with_headers w (append_headers lib w.protocol.curl_headers headers))

  unfoldable pub set_mime : List Address → Bytes → List Part → Wrapper Smtp → Wrapper Smtp
  unfolding fill_recipients fill_headers fill_body_mime
  set_mime recipients subject parts = do_if_idle λ w.
      if has_no_body w
      then or_fail error_mime_set (
          and_then (fill_recipients recipients w) λ w.
            and_then (fill_headers subject w.protocol.request_sender recipients w)
              (fill_body_mime parts))
      else w

  unfoldable pub set_body : List Address → Bytes → Wrapper Smtp → Wrapper Smtp
  unfolding fill_recipients fill_body
  set_body recipients body = do_if_idle λ w.
      if has_no_body w
      then or_fail error_body_set (and_then (fill_recipients recipients w) (fill_body body))
      else w

  -- `launch`: the callback makes the response.
  unfoldable pub launch : (ℕ → Bool) → ℕ → Bool → Wrapper Smtp → Wrapper Smtp
  launch throws cb accepted w =
      start (smtp lib) lib throws (some cb) accepted (threaded_callback false w)

-- SMTP::response, as the callback of `launch` makes it.
unfoldable pub take_response : Wrapper Smtp → ℤ
take_response w = get_code w
