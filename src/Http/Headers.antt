-- ===== src/Http/Headers.antt =====
-- The header lists of an HTTP object, operation by operation: src/http.cpp.
use curlev.Prelude.{
  ℕ, Bool, true, false, List, refl, arith, and_then, Bytes, codes, inl, inr, ap, ◌∙◌, all,
}
use curlev.Prelude.Int.{ℤ}
use curlev.StringUtils.{find, is_safe_byte}
use curlev.MapUtils.{KeyValues, append_url_encoded}
use curlev.Libcurl.{Easy, Libcurl, SlistAppends}
use curlev.CurlUtils.{curl_header_checked_append, curl_slist_checked_append}
use curlev.CurlUtils.Headers.{AreSafe, header_append-AreSafe, checked_append_cases, AreSafe-append}
use curlev.Mime.{Part}
use curlev.Transfer
use curlev.Defaults.{Defaults}
use curlev.Building.{or_fail}
use curlev.Building.Safety.{
  IsSafe, set_all-IsSafe, prepare_local-IsSafe, prepare_request_body-IsSafe,
  prepare_request_body-protocol, prepare_local-protocol, append_headers-AreSafe, post_mime-IsSafe,
}
use curlev.Wrapper.Codes.{error_body_set}
use curlev.Wrapper.{Wrapper, do_if_idle, clear, prepare_local, prepare_request_body, async_cb}
use curlev.Wrapper.Idle.{Call, perform}
use curlev.Wrapper.Preserved.{
  Holds, Preserves, idle-Holds, async_cb-Holds, clear-Holds, perform-Holds,
}
use curlev.Http.{
  Http, Info, http, prepare_protocol, finalize_protocol, clear_protocol, release_curl_extras,
  first_separator, request_settings, request_cleared, request, with_headers, add_headers, body_set,
  set_body, mime_set, set_mime,
}

-- The list under construction and all that was set on the handle are safe.
abbrev Safe : Easy → Http → Type 0
Safe h p = AreSafe p.curl_headers × IsSafe h

abbrev pub NoInjection : Wrapper Http → Type 0
NoInjection w = Holds Safe w

module _ (lib : Libcurl) (appends : SlistAppends lib) where
  expect_AreSafe :
      (headers : List Bytes)
      → AreSafe headers
      → AreSafe (curl_slist_checked_append lib headers (codes "Expect: ")).0
  expect_AreSafe headers a = elim (checked_append_cases lib appends headers (codes "Expect: ")) [
    | inl e ↦ rw e a
    | inr (e, _) ↦ rw e (AreSafe-append headers (codes "Expect: ") a refl)
  ]

  prepare-NoInjection : (w : Wrapper Http) → NoInjection w → NoInjection (prepare_protocol lib w).0
  unfolding prepare_protocol
  prepare-NoInjection w (a, b) = ground (arith, expect_AreSafe w.protocol.curl_headers a)

  locally-NoInjection : (w : Wrapper Http) → NoInjection w → NoInjection (prepare_local lib w).0
  locally-NoInjection w (a, b) = (
    ap (λ (p : Http). all (all is_safe_byte) p.curl_headers) (prepare_local-protocol lib w) ∙ a,
    prepare_local-IsSafe lib w b,
  )

  http-Preserves : (info : Info) → Preserves Safe (http lib info) lib
  unfolding http finalize_protocol clear_protocol release_curl_extras
  http-Preserves info = record {
    prepared = prepare-NoInjection;
    locally = locally-NoInjection;
    finalized = λ w a. (refl, a.1);
    cleared = λ w a. (refl, a.1);
  }

module _ (lib : Libcurl) (appends : SlistAppends lib) (info : Info) (d : Defaults) where
  pub add_headers-NoInjection :
      (ps : KeyValues) (w : Wrapper Http)
      → NoInjection w
      → NoInjection (add_headers lib info d ps w)
  unfolding add_headers with_headers do_if_idle
  add_headers-NoInjection ps w (a, b) =
      ground (arith, append_headers-AreSafe lib appends w.protocol.curl_headers ps a)

  request_cleared-NoInjection :
      (method url : Bytes) (query : KeyValues) (w : Wrapper Http)
      → NoInjection w
      → NoInjection (request_cleared lib info d method url query w)
  unfolding request_cleared
  request_cleared-NoInjection method url query w (a, b) = ground (
    arith,
    set_all-IsSafe lib w.curl
        (request_settings method
          (append_url_encoded url query (first_separator (find b'?' url)) b'&'))
        refl b,
  )

  pub request-NoInjection :
      (method url : Bytes) (query : KeyValues) (w : Wrapper Http)
      → NoInjection w
      → NoInjection (request lib info d method url query w)
  unfolding request
  request-NoInjection method url query w a =
      idle-Holds Safe (λ w. request_cleared lib info d method url query (clear (http lib info) d w))
        w a
        (request_cleared-NoInjection method url query (clear (http lib info) d w)
          (clear-Holds Safe (http lib info) lib (http-Preserves lib appends info) d w a))

  body_checked :
      (w : Wrapper Http) (r : List Bytes × Bool)
      → AreSafe r.0
      → IsSafe w.curl
      → NoInjection (
          or_fail error_body_set
            (and_then (with_headers lib info d w r) (prepare_request_body lib)))
  unfolding with_headers
  body_checked w (hs, true) a b =
      let v : Wrapper Http = record w { protocol = record (w.protocol) { curl_headers = hs } } in
      ground (arith, prepare_request_body-IsSafe lib v b, prepare_request_body-protocol lib v)
  body_checked w (hs, false) a b = ground arith

  body_set-NoInjection :
      (content_type body : Bytes) (w : Wrapper Http)
      → NoInjection w
      → NoInjection (body_set lib info d content_type body w)
  unfolding body_set with_headers
  body_set-NoInjection content_type body w (a, b) =
      body_checked (record w { base = Transfer.set_request_body body w.base })
        (curl_header_checked_append lib w.protocol.curl_headers (codes "Content-Type") content_type)
        (header_append-AreSafe lib appends w.protocol.curl_headers (codes "Content-Type")
          content_type a)
        b

  mime_set-NoInjection :
      (parts : List Part) (w : Wrapper Http)
      → NoInjection w
      → NoInjection (mime_set lib info d parts w)
  unfolding mime_set
  mime_set-NoInjection parts w (a, b) = ground (arith, post_mime-IsSafe lib w.curl parts b)

  pub set_body-NoInjection :
      (content_type body : Bytes) (w : Wrapper Http)
      → NoInjection w
      → NoInjection (set_body lib info d content_type body w)
  unfolding set_body do_if_idle
  set_body-NoInjection content_type body w a =
      ground (arith, body_set-NoInjection content_type body w a)

  pub set_mime-NoInjection :
      (parts : List Part) (w : Wrapper Http)
      → NoInjection w
      → NoInjection (set_mime lib info d parts w)
  unfolding set_mime do_if_idle
  set_mime-NoInjection parts w a = ground (arith, mime_set-NoInjection parts w a)

  pub async_cb-NoInjection :
      (throws : ℕ → Bool) (result : ℤ) (w : Wrapper Http)
      → NoInjection w
      → NoInjection (async_cb (http lib info) throws result w)
  async_cb-NoInjection = async_cb-Holds Safe (http lib info) lib (http-Preserves lib appends info)

  pub config-NoInjection :
      (c : Call) (throws : ℕ → Bool) (w : Wrapper Http)
      → NoInjection w
      → NoInjection (perform (http lib info) lib throws c w)
  config-NoInjection = perform-Holds Safe (http lib info) lib (http-Preserves lib appends info)
