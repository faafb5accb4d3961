-- ===== src/Smtp/Wired.antt =====
-- The handle of an SMTP object over its whole life: src/smtp.cpp.
use curlev.Prelude.{
  ℕ, Bool, some, List, [], ◌∷◌, ◌≡◌, refl, arith, and_then, Bytes, inl, inr, Option-cases,
}
use curlev.MapUtils.{KeyValues}
use curlev.Libcurl.{Libcurl, Easy}
use curlev.SmtpAddress.{Address}
use curlev.Mime.{Part}
use curlev.Transfer
use curlev.Defaults.{Defaults}
use curlev.Building.Wires.{
  prepare_local-wires, wires, set_all-wires, prepare_request_body-wires, post_mime-wires,
}
use curlev.Wrapper.Codes.{error_body_set, error_mime_set}
use curlev.Wrapper.{Wrapper, do_if_idle, clear, prepare_request_body}
use curlev.Wrapper.Create.{IsWired, try_create, try_create-IsReady}
use curlev.Wrapper.Preserved.{
  Preserves, idle-Holds, or_fail-Holds, then-Holds, async_cb-Holds, clear-Holds, perform-Holds,
}
use curlev.Wrapper.Wired.{Wires, Keeps, wires-IsWired}
use curlev.Smtp.{
  Smtp, fresh, smtp, prepare_protocol, released, lists, with_headers, with_recipients,
  fill_recipients, fill_headers, fill_body_mime, fill_body, send_cleared, send_settings, send,
  add_headers, set_mime, set_body,
}
use curlev.Smtp.History.{
  Event, call, sent, headers_added, body_set, mime_set, transferred, completed, handle, live,
}

smtp-Preserves : (x : Easy) (lib : Libcurl) → Preserves (Wires x) (smtp lib) lib
unfolding smtp prepare_protocol released
smtp-Preserves x lib = record {
  prepared = λ w a.
      set_all-wires lib x w.curl (lists w.protocol.curl_recipients w.protocol.curl_headers) refl a;
  locally = prepare_local-wires lib x;
  finalized = λ w a. a;
  cleared = λ w a. a;
}

module _ (x : Easy) (lib : Libcurl) (date : Bytes) (d : Defaults) where
  send_cleared-wires :
      (url : Bytes) (from : Address) (w : Wrapper Smtp)
      → Keeps x w
      → Keeps x (send_cleared lib date d url from w)
  unfolding send_cleared
  send_cleared-wires url from w a =
      ground (arith, set_all-wires lib x w.curl (send_settings url from) refl a)

  send-wires :
      (url : Bytes) (from : Address) (w : Wrapper Smtp)
      → Keeps x w
      → Keeps x (send lib date d url from w)
  unfolding send
  send-wires url from w a =
      idle-Holds (Wires x) (λ w. send_cleared lib date d url from (clear (smtp lib) d w)) w a
        (send_cleared-wires url from (clear (smtp lib) d w)
          (clear-Holds (Wires x) (smtp lib) lib (smtp-Preserves x lib) d w a))

  add_headers-wires :
      (ps : KeyValues) (w : Wrapper Smtp) → Keeps x w → Keeps x (add_headers lib date d ps w)
  unfolding add_headers with_headers do_if_idle
  add_headers-wires ps w a = ground arith

  fill_recipients-wires :
      (to : List Address) (w : Wrapper Smtp)
      → Keeps x w
      → Keeps x (fill_recipients lib date d to w).0
  unfolding fill_recipients with_recipients
  fill_recipients-wires to w a = ground arith

  fill_headers-wires :
      (subject : Bytes) (from : Address) (to : List Address) (w : Wrapper Smtp)
      → Keeps x w
      → Keeps x (fill_headers lib date d subject from to w).0
  unfolding fill_headers with_headers
  fill_headers-wires subject from to w a = ground arith

  fill_body_mime-wires :
      (parts : List Part) (w : Wrapper Smtp)
      → Keeps x w
      → Keeps x (fill_body_mime lib date d parts w).0
  unfolding fill_body_mime
  fill_body_mime-wires parts w a = elim (Option-cases w.protocol.curl_mime) [
    | inl e ↦ rw (e) (ground (arith, post_mime-wires lib x w.curl parts a))
    | inr (m, e) ↦ rw (e) a
  ]

  fill_body-wires :
      (body : Bytes) (w : Wrapper Smtp) → Keeps x w → Keeps x (fill_body lib date d body w).0
  unfolding fill_body
  fill_body-wires body w a =
      let v : Wrapper Smtp = record w { base = Transfer.set_request_body body w.base } in
      or_fail-Holds (Wires x) error_body_set (prepare_request_body lib v)
        (prepare_request_body-wires lib x v a)

  set_mime-wires :
      (to : List Address) (subject : Bytes) (parts : List Part) (w : Wrapper Smtp)
      → Keeps x w
      → Keeps x (set_mime lib date d to subject parts w)
  unfolding set_mime do_if_idle
  set_mime-wires to subject parts w a =
      let next = λ (w : Wrapper Smtp).
        and_then (fill_headers lib date d subject w.protocol.request_sender to w)
          (fill_body_mime lib date d parts) in
      let r = and_then (fill_recipients lib date d to w) next in
      let kept =
        then-Holds (Wires x) (fill_recipients lib date d to w) next (fill_recipients-wires to w a)
          λ u b.
            then-Holds (Wires x) (fill_headers lib date d subject u.protocol.request_sender to u)
              (fill_body_mime lib date d parts)
              (fill_headers-wires subject u.protocol.request_sender to u b)
              λ v c. fill_body_mime-wires parts v c in
      ground (arith, or_fail-Holds (Wires x) error_mime_set r kept)

  set_body-wires :
      (to : List Address) (body : Bytes) (w : Wrapper Smtp)
      → Keeps x w
      → Keeps x (set_body lib date d to body w)
  unfolding set_body do_if_idle
  set_body-wires to body w a =
      let r = and_then (fill_recipients lib date d to w) (fill_body lib date d body) in
      let kept =
        then-Holds (Wires x) (fill_recipients lib date d to w) (fill_body lib date d body)
          (fill_recipients-wires to w a) λ u b. fill_body-wires body u b in
      ground (arith, or_fail-Holds (Wires x) error_body_set r kept)

  handle-wires :
      (throws : ℕ → Bool) (e : Event) (w : Wrapper Smtp)
      → Keeps x w
      → Keeps x (handle lib date d throws e w)
  unfolding handle
  handle-wires throws (call c) w a =
      perform-Holds (Wires x) (smtp lib) lib (smtp-Preserves x lib) c throws w a
  handle-wires throws (sent url from) w a = send-wires url from w a
  handle-wires throws (headers_added ps) w a = add_headers-wires ps w a
  handle-wires throws (body_set to body) w a = set_body-wires to body w a
  handle-wires throws (mime_set to subject parts) w a = set_mime-wires to subject parts w a
  handle-wires throws (transferred b) w a = a
  handle-wires throws (completed result) w a =
      async_cb-Holds (Wires x) (smtp lib) lib (smtp-Preserves x lib) throws result w a

  live-wires :
      (throws : ℕ → Bool) (es : List Event) (w : Wrapper Smtp)
      → Keeps x w
      → Keeps x (live lib date d throws es w)
  unfolding live
  live-wires throws [] w a = a
  live-wires throws (e ∷ es) w a =
      live-wires throws es (handle lib date d throws e w) (handle-wires throws e w a)

-- Whatever is done with an SMTP object after its creation, and however its transfers end, its
-- handle calls the four callbacks of ASync, each for that object, shares the data of ASync and
-- takes no signals.
pub mail-IsWired :
    (lib : Libcurl) (date : Bytes) (d : Defaults) (throws : ℕ → Bool) (init_ok : Bool)
    (safe : Bytes) (es : List Event) (w : Wrapper Smtp)
    → try_create lib init_ok fresh safe ≡ some w
    → IsWired (live lib date d throws es w).curl
mail-IsWired lib date d throws init_ok safe es w e =
    wires-IsWired (live lib date d throws es w).curl w.curl
      (live-wires (wires w.curl) lib date d throws es w refl)
      (try_create-IsReady lib init_ok fresh safe w e).wired
