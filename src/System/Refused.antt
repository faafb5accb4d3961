-- ===== src/System/Refused.antt =====
-- When libcurl refuses the header list of a request: src/http.cpp, src/smtp.cpp and
-- include/wrapper.hpp.
use curlev.Prelude.{
  ℕ, Bool, true, false, Option, List, ◌≡◌, arith, Bytes, codes, ◌∷◌, Bool-cases, inl, inr,
}
use curlev.Libcurl.{Libcurl, Easy, Value, set_to, slist}
use curlev.Libcurl as Curl
use curlev.CurlUtils.{set_all, curl_slist_checked_append}
use curlev.Wrapper.{Wrapper, State, start, is_success}
use curlev.Wrapper.Unprepared.{IsSilent, unprepared_reports_success}
use curlev.Http.{Http, Info, http}
use curlev.Http as Web
use curlev.Http.Laws.{http-ProtocolLaws}
use curlev.Smtp.{Smtp, smtp}
use curlev.Smtp as Mail
use curlev.Smtp.Laws.{smtp-ProtocolLaws}

-- CURLOPT_HTTPHEADER is refused, whatever the list, as when libcurl has no memory left.
abbrev pub RefusesHeaders : Libcurl → Type 0
RefusesHeaders lib =
    (h : Easy) (headers : List Bytes)
    → lib.setopt h (set_to Curl.httpheader (slist headers)) ≡ false

module _ (lib : Libcurl) (refuses : RefusesHeaders lib) where
  http_unprepared : (w : Wrapper Http) → (Web.prepare_protocol lib w).1 ≡ false
  unfolding Web.prepare_protocol
  http_unprepared w =
      let r = curl_slist_checked_append lib w.protocol.curl_headers (codes "Expect: ") in
      ground (arith, refuses w.curl r.0)

  smtp_unprepared : (w : Wrapper Smtp) → (Mail.prepare_protocol lib w).1 ≡ false
  unfolding Mail.prepare_protocol set_all
  smtp_unprepared w =
      let recipients = set_to Curl.mail_rcpt (slist w.protocol.curl_recipients) in
      elim (Bool-cases (lib.setopt w.curl recipients)) [
        | inl e ↦ ground (arith, e, refuses (recipients ∷ w.curl) w.protocol.curl_headers)
        | inr e ↦ ground (arith, e)
      ]

  -- If libcurl refuses the header lists, `start` of an idle HTTP or SMTP object whose code is
  -- success begins no transfer and invokes the callback once, and the code is still success: the
  -- user sees 0 though nothing was sent. Only a callback that throws sets another code.
  pub refused_headers_report_success :
      (info : Info) (throws : ℕ → Bool) (cb : Option ℕ) (accepted : Bool) (w : Wrapper Http)
      (v : Wrapper Smtp)
      → w.exec_state ≡ State.idle
      → is_success w.response_code ≡ true
      → v.exec_state ≡ State.idle
      → is_success v.response_code ≡ true
      → IsSilent throws cb w (start (http lib info) lib throws cb accepted w)
        × IsSilent throws cb v (start (smtp lib) lib throws cb accepted v)
  unfolding http smtp
  refused_headers_report_success info throws cb accepted w v i s j t = (
    unprepared_reports_success (http lib info) (http-ProtocolLaws lib info) lib throws cb accepted w
        i s (http_unprepared (record w { user_cb = cb })),
    unprepared_reports_success (smtp lib) (smtp-ProtocolLaws lib) lib throws cb accepted v j t
        (smtp_unprepared (record v { user_cb = cb })),
  )
