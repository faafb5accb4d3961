-- ===== src/Http/Bodies.antt =====
-- The body that a request of src/http.cpp is given.
use curlev.Prelude.{
  Bool, true, false, List, if◌then◌else◌, Bytes, codes, ◌≡◌, refl, arith, ap, ◌∙◌, and_then,
}
use curlev.Prelude.Int.{ℤ}
use curlev.MapUtils.{KeyValues}
use curlev.Libcurl.{Libcurl}
use curlev.CurlUtils.{curl_header_checked_append}
use curlev.Building.{or_fail}
use curlev.Defaults.{Defaults}
use curlev.Transfer.{set_request_body, clear_base}
use curlev.Wrapper.{Wrapper, State, do_if_idle, idle_action, clear, prepare_request_body}
use curlev.Wrapper.Start.{do_if_idle_idle}
use curlev.Wrapper.Codes.{error_body_set}
use curlev.Http.{
  Http, Info, request, request_cleared, set_body, body_set, has_no_body, http, clear_protocol,
  release_curl_extras, with_headers,
}

or_fail_base : (code : ℤ) (r : Wrapper Http × Bool) → (or_fail code r).base ≡ r.0.base
or_fail_base code (w, true) = refl
or_fail_base code (w, false) = ground arith

do_if_idle_running :
    (action : Wrapper Http → Wrapper Http) (w : Wrapper Http)
    → w.exec_state ≡ State.running
    → do_if_idle action w ≡ w
unfolding do_if_idle
do_if_idle_running action w e = ap (λ s. idle_action s action w) e

module _ (lib : Libcurl) (info : Info) (d : Defaults) where
  -- An idle wrapper, once it has been given a request.
  requested :
      (method url : Bytes) (query : KeyValues) (w : Wrapper Http)
      → let w1 = request_cleared lib info d method url query (clear (http lib info) d w) in
        (w1.exec_state ≡ w.exec_state) × (has_no_body w1 ≡ true)
  unfolding request_cleared clear http clear_protocol release_curl_extras has_no_body clear_base
  requested method url query w = ground arith

  prepared_base : (w : Wrapper Http) → (prepare_request_body lib w).0.base ≡ w.base
  unfolding prepare_request_body
  prepared_base w = ground arith

  with_headers_base :
      (w : Wrapper Http) (r : List Bytes × Bool)
      → (and_then (with_headers lib info d w r) (prepare_request_body lib)).0.base ≡ w.base
  unfolding with_headers
  with_headers_base w (hs, true) =
      prepared_base (record w { protocol = record (w.protocol) { curl_headers = hs } })
  with_headers_base w (hs, false) = refl

  body_set_base :
      (content_type body : Bytes) (w : Wrapper Http)
      → (body_set lib info d content_type body w).base ≡ set_request_body body w.base
  unfolding body_set
  body_set_base content_type body w =
      let w1 : Wrapper Http = record w { base = set_request_body body w.base } in
      let headers : List Bytes × Bool =
        curl_header_checked_append lib w1.protocol.curl_headers (codes "Content-Type")
          content_type in
      or_fail_base error_body_set
        (and_then (with_headers lib info d w1 headers) (prepare_request_body lib))
      ∙ with_headers_base w1 headers

  -- The body that an idle wrapper without one is given.
  bodied :
      (content_type body : Bytes) (w : Wrapper Http)
      → w.exec_state ≡ State.idle
      → has_no_body w ≡ true
      → (set_body lib info d content_type body w).base ≡ set_request_body body w.base
  unfolding set_body
  bodied content_type body w i e =
      ap (λ (x : Wrapper Http). x.base) (do_if_idle_idle _ w i)
      ∙ ap (λ b. (if b then body_set lib info d content_type body w else w).base) e
      ∙ body_set_base content_type body w

  -- What a request has for a body, when it is given one right after REQUEST.
  pub request-set_body :
      (method url content_type body : Bytes) (query : KeyValues) (w : Wrapper Http)
      → w.exec_state ≡ State.idle
      → (set_body lib info d content_type body
          (request lib info d method url query w)).base.request_body
        ≡ body
  unfolding request set_request_body
  request-set_body method url content_type body query w i =
      let w1 : Wrapper Http = request lib info d method url query w in
      let same : w1 ≡ request_cleared lib info d method url query (clear (http lib info) d w) =
        do_if_idle_idle _ w i in
      let (s, n) = requested method url query w in
      ap (λ b. b.request_body)
        (bodied content_type body w1 (ap (λ (x : Wrapper Http). x.exec_state) same ∙ s ∙ i)
          (ap has_no_body same ∙ n))

  pub request_busy :
      (method url content_type body : Bytes) (query : KeyValues) (w : Wrapper Http)
      → w.exec_state ≡ State.running
      → set_body lib info d content_type body (request lib info d method url query w) ≡ w
  unfolding request set_body
  request_busy method url content_type body query w i =
      let same = do_if_idle_running _ w i in
      ap (set_body lib info d content_type body) same ∙ do_if_idle_running _ w i
