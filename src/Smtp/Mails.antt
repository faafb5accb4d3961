-- ===== src/Smtp/Mails.antt =====
-- The calls of SMTP that prepare a message: src/smtp.cpp.
use curlev.Prelude.{Bool, true, false, List, ◌≡◌, arith, and_then, Bytes, ◌∙◌}
use curlev.MapUtils.{KeyValues}
use curlev.Libcurl.{Libcurl}
use curlev.Mime.{Part}
use curlev.SmtpAddress.{Address}
use curlev.Defaults.{Defaults}
use curlev.Building.{or_fail}
use curlev.Prelude.Int.{ℤ}
use curlev.Wrapper.Codes.{error_body_set, error_mime_set}
use curlev.Wrapper.{Wrapper, do_if_idle, clear, prepare_request_body}
use curlev.System.{is_idle}
use curlev.System.Calls.{CallLaws}
use curlev.System.Start.{do_if_idle_busy}
use curlev.Smtp.{
  Smtp, smtp, released, send, send_cleared, with_headers, with_recipients, add_headers,
  fill_recipients, fill_headers, fill_body_mime, fill_body, set_body, set_mime,
}

pub data SmtpCall : Type 0 where
  sent : (url : Bytes) → Address → SmtpCall
  headers_added : KeyValues → SmtpCall
  body_given : List Address → (body : Bytes) → SmtpCall
  mime_given : List Address → (subject : Bytes) → List Part → SmtpCall

module _ (lib : Libcurl) (date : Bytes) (d : Defaults) where
  unfoldable pub run : SmtpCall → Wrapper Smtp → Wrapper Smtp
  run (sent url from) = send lib date d url from
  run (headers_added ps) = add_headers lib date d ps
  run (body_given to body) = set_body lib date d to body
  run (mime_given to subject parts) = set_mime lib date d to subject parts

  abbrev Same : Wrapper Smtp → Wrapper Smtp → Type 0
  Same w w' = (w'.exec_state ≡ w.exec_state) × (w'.called ≡ w.called)

  idle-Same :
      (action : Wrapper Smtp → Wrapper Smtp) (w : Wrapper Smtp)
      → Same w (action w)
      → Same w (do_if_idle action w)
  unfolding do_if_idle
  idle-Same action w a = ground arith

  send-Same :
      (url : Bytes) (from : Address) (w : Wrapper Smtp)
      → Same w (send_cleared lib date d url from (clear (smtp lib) d w))
  unfolding send_cleared clear smtp released
  send-Same url from w = ground arith

  recipients-Same :
      (to : List Address) (w : Wrapper Smtp) → Same w (fill_recipients lib date d to w).0
  unfolding fill_recipients with_recipients
  recipients-Same to w = ground arith

  headers-Same :
      (subject : Bytes) (from : Address) (to : List Address) (w : Wrapper Smtp)
      → Same w (fill_headers lib date d subject from to w).0
  unfolding fill_headers with_headers
  headers-Same subject from to w = ground arith

  mime-Same : (parts : List Part) (w : Wrapper Smtp) → Same w (fill_body_mime lib date d parts w).0
  unfolding fill_body_mime
  mime-Same parts w = ground arith

  body-Same : (body : Bytes) (w : Wrapper Smtp) → Same w (fill_body lib date d body w).0
  unfolding fill_body prepare_request_body
  body-Same body w = ground arith

  then-Same :
      (w : Wrapper Smtp) (r : Wrapper Smtp × Bool) (next : Wrapper Smtp → Wrapper Smtp × Bool)
      → Same w r.0
      → ((u : Wrapper Smtp) → Same w u → Same w (next u).0)
      → Same w (and_then r next).0
  then-Same w (u, true) next a f = f u a
  then-Same w (u, false) next a f = a

  step-Same : (w u v : Wrapper Smtp) → Same w u → Same u v → Same w v
  step-Same w u v a b = (b.0 ∙ a.0, b.1 ∙ a.1)

  failed-Same :
      (w : Wrapper Smtp) (code : ℤ) (r : Wrapper Smtp × Bool) → Same w r.0 → Same w (or_fail code r)
  failed-Same w code (u, true) a = a
  failed-Same w code (u, false) a = ground arith

  set_body-Same :
      (to : List Address) (body : Bytes) (w : Wrapper Smtp) → Same w (set_body lib date d to body w)
  unfolding set_body
  set_body-Same to body w =
      let a =
        failed-Same w error_body_set
          (and_then (fill_recipients lib date d to w) (fill_body lib date d body))
          (then-Same w (fill_recipients lib date d to w) (fill_body lib date d body)
            (recipients-Same to w)
            λ u s. step-Same w u (fill_body lib date d body u).0 s (body-Same body u)) in
      idle-Same _ w (ground (arith, a))

  set_mime-Same :
      (to : List Address) (subject : Bytes) (parts : List Part) (w : Wrapper Smtp)
      → Same w (set_mime lib date d to subject parts w)
  unfolding set_mime
  set_mime-Same to subject parts w =
      let next = λ (w : Wrapper Smtp).
        and_then (fill_headers lib date d subject w.protocol.request_sender to w)
          (fill_body_mime lib date d parts) in
      let a = failed-Same w error_mime_set (and_then (fill_recipients lib date d to w) next) (
        then-Same w (fill_recipients lib date d to w) next (recipients-Same to w) λ u s.
          then-Same w (fill_headers lib date d subject u.protocol.request_sender to u)
            (fill_body_mime lib date d parts)
            (step-Same w u (fill_headers lib date d subject u.protocol.request_sender to u).0 s
              (headers-Same subject u.protocol.request_sender to u))
            λ v t. step-Same w v (fill_body_mime lib date d parts v).0 t (mime-Same parts v)) in
      idle-Same _ w (ground (arith, a))

  run-Same : (c : SmtpCall) (w : Wrapper Smtp) → Same w (run c w)
  unfolding run send add_headers with_headers
  run-Same (sent url from) w = idle-Same _ w (send-Same url from w)
  run-Same (headers_added ps) w = idle-Same _ w (ground arith)
  run-Same (body_given to body) w = set_body-Same to body w
  run-Same (mime_given to subject parts) w = set_mime-Same to subject parts w

  run_busy : (c : SmtpCall) (w : Wrapper Smtp) → is_idle w.exec_state ≡ false → run c w ≡ w
  unfolding run send add_headers set_body set_mime
  run_busy (sent url from) w e = do_if_idle_busy _ w e
  run_busy (headers_added ps) w e = do_if_idle_busy _ w e
  run_busy (body_given to body) w e = do_if_idle_busy _ w e
  run_busy (mime_given to subject parts) w e = do_if_idle_busy _ w e

  pub smtp-CallLaws : CallLaws run
  smtp-CallLaws = record {
    state_kept = λ c w. (run-Same c w).0;
    called_kept = λ c w. (run-Same c w).1;
    busy_kept = run_busy;
  }
