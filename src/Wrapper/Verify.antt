-- ===== src/Wrapper/Verify.antt =====
-- What is on the handle when a transfer runs: `start` of include/wrapper.hpp.
use curlev.Prelude.{
  ℕ, Bool, true, false, Option, ◌≡◌, refl, arith, and_then, ap, ◌∙◌, sym, subst, inl, inr,
  Bool-cases,
}
use curlev.Libcurl.{Libcurl}
use curlev.Wrapper.Codes.{error_internal_start}
use curlev.Wrapper.Start.{Keeps, ProtocolLaws, invoke-called, do_if_idle_idle, prepared_frame}
use curlev.Wrapper.{
  Wrapper, State, Protocol, submit, callback_unless_running, cb_protocol, start, begin_transfer,
  is_success, prepare_local,
}
use curlev.Wrapper.Secured.{IsSecured, all_set-IsSecured, prepare_local-all_set}

module _ {P : Type 0} (p : Protocol P) (laws : ProtocolLaws p) (lib : Libcurl) where
  both_prepared :
      (w : Wrapper P)
      → (and_then (p.prepare_protocol w) (prepare_local lib)).1 ≡ true
      → IsSecured w.options w.safe_protocols
          (and_then (p.prepare_protocol w) (prepare_local lib)).0.curl
  both_prepared w e = go (p.prepare_protocol w) (laws.prepare_keeps w) e
    where
      go :
          (r : Wrapper P × Bool)
          → Keeps w r.0
          → (and_then r (prepare_local lib)).1 ≡ true
          → IsSecured w.options w.safe_protocols (and_then r (prepare_local lib)).0.curl
      go (u, true) k t =
          subst
            (λ (v : Wrapper P). IsSecured v.options v.safe_protocols (prepare_local lib u).0.curl)
            k'
            (subst (λ (v : Wrapper P). IsSecured u.options u.safe_protocols v.curl)
              (sym (prepare_local-all_set lib u t)) (all_set-IsSecured u))
        where
          k' : u ≡ record w { curl = u.curl; protocol = u.protocol }
          k' = k
      go (u, false) k t = ground arith

  submitted :
      (throws : ℕ → Bool) (accepted : Bool) (r : Wrapper P × Bool)
      → r.0.exec_state ≡ State.idle
      → (callback_unless_running throws (submit r accepted)).exec_state ≡ State.running
      → (r.1 ≡ true) × ((callback_unless_running throws (submit r accepted)).curl ≡ r.0.curl)
  unfolding submit cb_protocol
  submitted throws true (u, true) i e = (refl, refl)
  submitted throws false (u, true) i e = ground (
    arith,
    (invoke-called throws u.user_cb (record u { response_code = error_internal_start })).1,
  )
  submitted throws true (u, false) i e = ground (arith, (invoke-called throws u.user_cb u).1)
  submitted throws false (u, false) i e = ground (arith, (invoke-called throws u.user_cb u).1)

  submitted-IsSecured :
      (throws : ℕ → Bool) (accepted : Bool) (w : Wrapper P)
      → w.exec_state ≡ State.idle
      → (callback_unless_running throws
          (submit (and_then (p.prepare_protocol w) (prepare_local lib)) accepted)).exec_state
        ≡ State.running
      → IsSecured w.options w.safe_protocols
          (callback_unless_running throws
            (submit (and_then (p.prepare_protocol w) (prepare_local lib)) accepted)).curl
  submitted-IsSecured throws accepted w i e =
      let r = and_then (p.prepare_protocol w) (prepare_local lib) in
      let (ok, same) = submitted throws accepted r ((prepared_frame p laws lib w).0 ∙ i) e in
      subst (IsSecured w.options w.safe_protocols) (sym same) (both_prepared w ok)

  begun-IsSecured :
      (throws : ℕ → Bool) (cb : Option ℕ) (accepted : Bool) (w : Wrapper P)
      → w.exec_state ≡ State.idle
      → (callback_unless_running throws (begin_transfer p lib cb accepted w)).exec_state
        ≡ State.running
      → IsSecured w.options w.safe_protocols
          (callback_unless_running throws (begin_transfer p lib cb accepted w)).curl
  unfolding begin_transfer cb_protocol
  begun-IsSecured throws cb accepted w i e = elim (Bool-cases (is_success w.response_code)) [
    | inl s ↦
        let w1 : Wrapper P = record w { user_cb = cb } in
        let q : begin_transfer p lib cb accepted w
            ≡ submit (and_then (p.prepare_protocol w1) (prepare_local lib)) accepted =
          rw (s, begin_transfer) refl in
        subst (λ b. IsSecured w.options w.safe_protocols (callback_unless_running throws b).curl)
          (sym q)
          (submitted-IsSecured throws accepted w1 i
            (sym (ap (λ b. (callback_unless_running throws b).exec_state) q) ∙ e))
    | inr f ↦ ground (arith, (invoke-called throws cb (record w { user_cb = cb })).1)
  ]

  -- When `start` leaves a transfer running, the handle verifies the server's certificate and its
  -- name unless the user chose otherwise, is limited to the safe protocols, also in redirections,
  -- and has the user's timeout, whatever was set on the handle before.
  pub started-IsSecured :
      (throws : ℕ → Bool) (cb : Option ℕ) (accepted : Bool) (w : Wrapper P)
      → w.exec_state ≡ State.idle
      → (start p lib throws cb accepted w).exec_state ≡ State.running
      → IsSecured w.options w.safe_protocols (start p lib throws cb accepted w).curl
  unfolding start
  started-IsSecured throws cb accepted w i e =
      let q =
        do_if_idle_idle (λ w. callback_unless_running throws (begin_transfer p lib cb accepted w)) w
          i in
      subst (λ (v : Wrapper P). IsSecured w.options w.safe_protocols v.curl) (sym q)
        (begun-IsSecured throws cb accepted w i (sym (ap (λ (v : Wrapper P). v.exec_state) q) ∙ e))
