-- ===== src/Wrapper/Unprepared.antt =====
-- `start` of include/wrapper.hpp when `prepare_protocol` fails.
use curlev.Prelude.{
  ℕ, Bool, true, false, Option, none, some, ◌≡◌, refl, arith, and_then, ap, ◌∙◌, sym, subst,
}
use curlev.Libcurl.{Libcurl}
use curlev.Wrapper.Start.{Keeps, ProtocolLaws, do_if_idle_idle, invoked}
use curlev.Wrapper.Callback.{code_after}
use curlev.Wrapper.{
  Wrapper, State, Protocol, prepare_local, submit, callback_unless_running, cb_protocol, invoke,
  start, begin_transfer, is_success,
}

-- What `start` leaves if it ends with nothing done but the callback.
pub record IsSilent {P : Type 0} (throws : ℕ → Bool) (cb : Option ℕ) (w w' : Wrapper P)
    : Type 0 where
  pub stopped : w'.exec_state ≡ State.idle
  pub called : w'.called ≡ invoked cb w.called
  pub code : w'.response_code ≡ code_after throws cb w.response_code

invoke-IsSilent :
    {P : Type 0} (throws : ℕ → Bool) (cb : Option ℕ) (w : Wrapper P)
    → w.exec_state ≡ State.idle
    → IsSilent throws cb w (invoke throws cb w)
unfolding invoke
invoke-IsSilent throws none w i = record { stopped = i; called = refl; code = refl }
invoke-IsSilent throws (some c) w i = record {
  stopped = ground arith;
  called = ground arith;
  code = ground arith;
}

module _ {P : Type 0} (p : Protocol P) (laws : ProtocolLaws p) (lib : Libcurl) where
  unprepared_from :
      (throws : ℕ → Bool) (cb : Option ℕ) (accepted : Bool) (w : Wrapper P) (r : Wrapper P × Bool)
      → Keeps w r.0
      → w.user_cb ≡ cb
      → w.exec_state ≡ State.idle
      → r.1 ≡ false
      → IsSilent throws cb w
          (callback_unless_running throws (submit (and_then r (prepare_local lib)) accepted))
  unfolding submit cb_protocol
  unprepared_from throws cb accepted w (u, true) k c i f = ground arith
  unprepared_from throws cb accepted w (u, false) k c i f =
      let same = ap (λ (v : Wrapper P). v.user_cb) k ∙ c in
      let z = invoke-IsSilent throws cb u (ap (λ (v : Wrapper P). v.exec_state) k ∙ i) in
      subst (λ d. IsSilent throws cb w (invoke throws d u)) (sym same)
        (record {
          stopped = z.stopped;
          called = z.called ∙ ap (λ (v : Wrapper P). invoked cb v.called) k;
          code = z.code ∙ ap (λ (v : Wrapper P). code_after throws cb v.response_code) k;
        })

  -- If the preparation of the protocol fails, `start` begins no transfer, invokes the callback and
  -- keeps the code it found, which is success: the user sees 0 though nothing was sent. Only a
  -- callback that throws sets another code.
  pub unprepared_reports_success :
      (throws : ℕ → Bool) (cb : Option ℕ) (accepted : Bool) (w : Wrapper P)
      → w.exec_state ≡ State.idle
      → is_success w.response_code ≡ true
      → (p.prepare_protocol (record w { user_cb = cb })).1 ≡ false
      → IsSilent throws cb w (start p lib throws cb accepted w)
  unfolding start begin_transfer
  unprepared_reports_success throws cb accepted w i s f =
      let w1 : Wrapper P = record w { user_cb = cb } in
      subst (IsSilent throws cb w)
        (sym (
          do_if_idle_idle (λ w. callback_unless_running throws (begin_transfer p lib cb accepted w))
            w i))
        (rw (s, begin_transfer)
          (let z =
              unprepared_from throws cb accepted w1 (p.prepare_protocol w1) (laws.prepare_keeps w1)
                refl i f in
            record { stopped = z.stopped; called = z.called; code = z.code }))
