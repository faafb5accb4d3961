-- ===== src/Smtp/Operations.antt =====
-- The header lists of an SMTP object, operation by operation: src/smtp.cpp.
use curlev.Prelude.{ℕ, Bool, List, refl, arith, and_then, Bytes, ap, ◌∙◌, all}
use curlev.Prelude.Int.{ℤ}
use curlev.StringUtils.{is_safe_byte}
use curlev.MapUtils.{KeyValues}
use curlev.Libcurl.{Libcurl, SlistAppends}
use curlev.SmtpAddress.{Address}
use curlev.Mime.{Part}
use curlev.Defaults.{Defaults}
use curlev.Building.Safety.{
  set_all-IsSafe, prepare_local-IsSafe, prepare_local-protocol, append_headers-AreSafe,
}
use curlev.Wrapper.Codes.{error_mime_set, error_body_set}
use curlev.Wrapper.{Wrapper, do_if_idle, clear, prepare_local, async_cb}
use curlev.Wrapper.Idle.{Call, perform}
use curlev.Wrapper.Preserved.{
  Preserves, idle-Holds, or_fail-Holds, then-Holds, async_cb-Holds, clear-Holds, perform-Holds,
}
use curlev.Smtp.{
  Smtp, smtp, prepare_protocol, released, release_curl_extras, with_headers, fill_recipients,
  fill_headers, fill_body_mime, fill_body, send_cleared, send_settings, lists, send, add_headers,
  set_mime, set_body,
}
use curlev.Smtp.Headers.{
  Safe, NoInjection, fill_recipients-NoInjection, fill_headers-NoInjection,
  fill_body_mime-NoInjection, fill_body-NoInjection,
}

module _ (lib : Libcurl) where
  prepare-NoInjection : (w : Wrapper Smtp) → NoInjection w → NoInjection (prepare_protocol lib w).0
  unfolding prepare_protocol
  prepare-NoInjection w (a, b) = (
    a,
    set_all-IsSafe lib w.curl (lists w.protocol.curl_recipients w.protocol.curl_headers)
        (ground (arith, a)) b,
  )

  locally-NoInjection : (w : Wrapper Smtp) → NoInjection w → NoInjection (prepare_local lib w).0
  locally-NoInjection w (a, b) = (
    ap (λ (p : Smtp). all (all is_safe_byte) p.curl_headers) (prepare_local-protocol lib w) ∙ a,
    prepare_local-IsSafe lib w b,
  )

  smtp-Preserves : Preserves Safe (smtp lib) lib
  unfolding smtp released release_curl_extras
  smtp-Preserves = record {
    prepared = prepare-NoInjection;
    locally = locally-NoInjection;
    finalized = λ w a. (refl, a.1);
    cleared = λ w a. (refl, a.1);
  }

module _ (lib : Libcurl) (appends : SlistAppends lib) (date : Bytes) (d : Defaults) where
  pub add_headers-NoInjection :
      (ps : KeyValues) (w : Wrapper Smtp)
      → NoInjection w
      → NoInjection (add_headers lib date d ps w)
  unfolding add_headers with_headers do_if_idle
  add_headers-NoInjection ps w (a, b) =
      ground (arith, append_headers-AreSafe lib appends w.protocol.curl_headers ps a)

  send_cleared-NoInjection :
      (url : Bytes) (from : Address) (w : Wrapper Smtp)
      → NoInjection w
      → NoInjection (send_cleared lib date d url from w)
  unfolding send_cleared
  send_cleared-NoInjection url from w (a, b) =
      ground (arith, set_all-IsSafe lib w.curl (send_settings url from) refl b)

  pub send-NoInjection :
      (url : Bytes) (from : Address) (w : Wrapper Smtp)
      → NoInjection w
      → NoInjection (send lib date d url from w)
  unfolding send
  send-NoInjection url from w a =
      idle-Holds Safe (λ w. send_cleared lib date d url from (clear (smtp lib) d w)) w a
        (send_cleared-NoInjection url from (clear (smtp lib) d w)
          (clear-Holds Safe (smtp lib) lib (smtp-Preserves lib) d w a))

  pub set_mime-NoInjection :
      (to : List Address) (subject : Bytes) (parts : List Part) (w : Wrapper Smtp)
      → NoInjection w
      → NoInjection (set_mime lib date d to subject parts w)
  unfolding set_mime do_if_idle
  set_mime-NoInjection to subject parts w a =
      let next = λ (w : Wrapper Smtp).
        and_then (fill_headers lib date d subject w.protocol.request_sender to w)
          (fill_body_mime lib date d parts) in
      let r = and_then (fill_recipients lib date d to w) next in
      let safe =
        then-Holds Safe (fill_recipients lib date d to w) next
          (fill_recipients-NoInjection lib appends date d to w a)
          λ u b.
            then-Holds Safe (fill_headers lib date d subject u.protocol.request_sender to u)
              (fill_body_mime lib date d parts)
              (fill_headers-NoInjection lib appends date d subject u.protocol.request_sender to u b)
              λ v c. fill_body_mime-NoInjection lib appends date d parts v c in
      ground (arith, or_fail-Holds Safe error_mime_set r safe)

  pub set_body-NoInjection :
      (to : List Address) (body : Bytes) (w : Wrapper Smtp)
      → NoInjection w
      → NoInjection (set_body lib date d to body w)
  unfolding set_body do_if_idle
  set_body-NoInjection to body w a =
      let r = and_then (fill_recipients lib date d to w) (fill_body lib date d body) in
      let safe =
        then-Holds Safe (fill_recipients lib date d to w) (fill_body lib date d body)
          (fill_recipients-NoInjection lib appends date d to w a)
          λ u b. fill_body-NoInjection lib appends date d body u b in
      ground (arith, or_fail-Holds Safe error_body_set r safe)

  pub async_cb-NoInjection :
      (throws : ℕ → Bool) (result : ℤ) (w : Wrapper Smtp)
      → NoInjection w
      → NoInjection (async_cb (smtp lib) throws result w)
  async_cb-NoInjection = async_cb-Holds Safe (smtp lib) lib (smtp-Preserves lib)

  pub config-NoInjection :
      (c : Call) (throws : ℕ → Bool) (w : Wrapper Smtp)
      → NoInjection w
      → NoInjection (perform (smtp lib) lib throws c w)
  config-NoInjection = perform-Holds Safe (smtp lib) lib (smtp-Preserves lib)
