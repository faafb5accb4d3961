-- ===== src/Wrapper/Start.antt =====
-- `start` of include/wrapper.hpp: a transfer runs, or the callback has been invoked.
use curlev.Prelude.{
  ℕ, Bool, true, false, ◌&&◌, Option, none, some, List, ◌∷◌, inl, inr, ◌≡◌, refl, arith, and_then,
  Bool-cases, ◌∙◌, ap, sym, subst,
}
use curlev.Libcurl.{Libcurl}
use curlev.Wrapper.Codes.{error_internal_start}
use curlev.Wrapper.{
  Wrapper, State, Protocol, prepare_local, invoke, cb_protocol, submit, begin_transfer,
  callback_unless_running, start, do_if_idle, idle_action, is_success,
}

-- A step that touches the handle and the protocol's own data, and nothing else.
abbrev pub Keeps : {P : Type 0} → Wrapper P → Wrapper P → Type 0
Keeps w w' = w' ≡ record w { curl = w'.curl; protocol = w'.protocol }

-- What the wrapper wants of a protocol.
pub record ProtocolLaws {P : Type 0} (p : Protocol P) : Type 0 where
  pub prepare_keeps : (w : Wrapper P) → Keeps w (p.prepare_protocol w).0
  pub finalize_keeps : (w : Wrapper P) → Keeps w (p.finalize_protocol w)
  pub clear_keeps : (w : Wrapper P) → Keeps w (p.clear_protocol w)

-- The callbacks that were invoked, once `cb` is done.
abbrev pub invoked : Option ℕ → List ℕ → List ℕ
invoked none called = called
invoked (some c) called = c ∷ called

module _ {P : Type 0} where
  pub do_if_idle_idle :
      (action : Wrapper P → Wrapper P) (w : Wrapper P)
      → w.exec_state ≡ State.idle
      → do_if_idle action w ≡ action w
  unfolding do_if_idle
  do_if_idle_idle action w h = ap (λ s. idle_action s action w) h

  pub invoke-called :
      (throws : ℕ → Bool) (cb : Option ℕ) (w : Wrapper P)
      → ((invoke throws cb w).called ≡ invoked cb w.called)
        × ((invoke throws cb w).exec_state ≡ w.exec_state)
  unfolding invoke
  invoke-called throws none w = (refl, refl)
  invoke-called throws (some c) w = ground arith

  prepare_local_frame :
      (lib : Libcurl) (w : Wrapper P)
      → ((prepare_local lib w).0.exec_state ≡ w.exec_state)
        × ((prepare_local lib w).0.user_cb ≡ w.user_cb)
        × ((prepare_local lib w).0.called ≡ w.called)
  unfolding prepare_local
  prepare_local_frame lib w = ground arith

  prepare_local_code :
      (lib : Libcurl) (w : Wrapper P)
      → (prepare_local lib w).1 ≡ true
      → (prepare_local lib w).0.response_code ≡ w.response_code
  unfolding prepare_local
  prepare_local_code lib w e = ground arith

-- An idle wrapper's `start` comes to ASync::start_request.
unfoldable pub submits : {P : Type 0} → Protocol P → Libcurl → Option ℕ → Wrapper P → Bool
submits p lib cb w =
    is_success w.response_code
    && (and_then (p.prepare_protocol (record w { user_cb = cb })) (prepare_local lib)).1

module _ {P : Type 0} (p : Protocol P) (laws : ProtocolLaws p) (lib : Libcurl) where
  -- What the two preparations leave.
  pub prepared_frame :
      (w : Wrapper P)
      → let r = and_then (p.prepare_protocol w) (prepare_local lib) in
        (r.0.exec_state ≡ w.exec_state)
        × (r.0.user_cb ≡ w.user_cb)
        × (r.0.called ≡ w.called)
        × (r.1 ≡ true → r.0.response_code ≡ w.response_code)
  prepared_frame w = go (p.prepare_protocol w) (laws.prepare_keeps w)
    where
      go :
          (r : Wrapper P × Bool)
          → Keeps w r.0
          → ((and_then r (prepare_local lib)).0.exec_state ≡ w.exec_state)
            × ((and_then r (prepare_local lib)).0.user_cb ≡ w.user_cb)
            × ((and_then r (prepare_local lib)).0.called ≡ w.called)
            × ((and_then r (prepare_local lib)).1 ≡ true
                → (and_then r (prepare_local lib)).0.response_code ≡ w.response_code)
      go (u, true) k =
          let (a, b, c) = prepare_local_frame lib u in
          (
            a ∙ ap (λ (x : Wrapper P). x.exec_state) k,
            b ∙ ap (λ (x : Wrapper P). x.user_cb) k,
            c ∙ ap (λ (x : Wrapper P). x.called) k,
            λ e. prepare_local_code lib u e ∙ ap (λ (x : Wrapper P). x.response_code) k,
          )
      go (u, false) k = (
        ap (λ (x : Wrapper P). x.exec_state) k,
        ap (λ (x : Wrapper P). x.user_cb) k,
        ap (λ (x : Wrapper P). x.called) k,
        λ e. cc,
      )

  -- `start` has begun a transfer, which holds the callback back, or it has invoked the callback.
  pub data Outcome (cb : Option ℕ) (accepted : Bool) (w w' : Wrapper P) : Type 0 where
    begun :
        accepted ≡ true
        → submits p lib cb w ≡ true
        → is_success w.response_code ≡ true
        → w'.exec_state ≡ State.running
        → w'.user_cb ≡ cb
        → w'.called ≡ w.called
        → w'.response_code ≡ w.response_code
        → Outcome cb accepted w w'
    ended :
        (submits p lib cb w && accepted) ≡ false
        → w'.exec_state ≡ State.idle
        → w'.called ≡ invoked cb w.called
        → Outcome cb accepted w w'

  submit_outcome :
      (throws : ℕ → Bool) (cb : Option ℕ) (accepted : Bool) (w : Wrapper P) (r : Wrapper P × Bool)
      → is_success w.response_code ≡ true
      → r.0.exec_state ≡ State.idle
      → r.0.user_cb ≡ cb
      → r.0.called ≡ w.called
      → (r.1 ≡ true → r.0.response_code ≡ w.response_code)
      → submits p lib cb w ≡ r.1
      → Outcome cb accepted w (callback_unless_running throws (submit r accepted))
  unfolding submit cb_protocol
  submit_outcome throws cb true w (u, true) s i c d e f = begun refl f s refl c d (e refl)
  submit_outcome throws cb false w (u, true) s i c d e f =
      let (a, b) =
        invoke-called throws u.user_cb (record u { response_code = error_internal_start }) in
      ended (ground arith) (b ∙ i) (a ∙ (λ j. invoked (c j) (d j)))
  submit_outcome throws cb true w (u, false) s i c d e f =
      let (a, b) = invoke-called throws u.user_cb u in
      ended (ground arith) (b ∙ i) (a ∙ (λ j. invoked (c j) (d j)))
  submit_outcome throws cb false w (u, false) s i c d e f =
      let (a, b) = invoke-called throws u.user_cb u in
      ended (ground arith) (b ∙ i) (a ∙ (λ j. invoked (c j) (d j)))

  begin_outcome :
      (throws : ℕ → Bool) (cb : Option ℕ) (accepted : Bool) (w : Wrapper P)
      → w.exec_state ≡ State.idle
      → Outcome cb accepted w (callback_unless_running throws (begin_transfer p lib cb accepted w))
  unfolding begin_transfer cb_protocol submits
  begin_outcome throws cb accepted w i = elim (Bool-cases (is_success w.response_code)) [
    | inl s ↦
        let w1 : Wrapper P = record w { user_cb = cb } in
        let (a, b, c, d) = prepared_frame w1 in
        rw (s, begin_transfer)
          (submit_outcome throws cb accepted w
            (and_then (p.prepare_protocol w1) (prepare_local lib)) s (a ∙ i) b c d (ground arith))
    | inr f ↦
        let (a, b) = invoke-called throws cb (record w { user_cb = cb }) in
        rw (f, begin_transfer) (ended (ground arith) (b ∙ i) a)
  ]

  -- In the idle state, `start` either leaves a transfer running with the callback kept for its
  -- end, and then all went well so far and ASync took the request, or it is idle again and has
  -- invoked the callback exactly once.
  pub start-Outcome :
      (throws : ℕ → Bool) (cb : Option ℕ) (accepted : Bool) (w : Wrapper P)
      → w.exec_state ≡ State.idle
      → Outcome cb accepted w (start p lib throws cb accepted w)
  unfolding start
  start-Outcome throws cb accepted w i =
      subst (Outcome cb accepted w) (sym (do_if_idle_idle _ w i))
        (begin_outcome throws cb accepted w i)
