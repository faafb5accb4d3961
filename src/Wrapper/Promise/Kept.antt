-- ===== src/Wrapper/Promise/Kept.antt =====
-- The promise of `launch` is kept: src/http.cpp, src/smtp.cpp and include/wrapper.hpp.
use curlev.Prelude.{
  ℕ, Bool, true, false, some, ◌≡◌, refl, arith, ap, sym, ◌∙◌, subst, and_then, Bool-cases, inl, inr,
  if◌then◌else◌,
}
use curlev.Prelude.Int.{ℤ}
use curlev.Libcurl.{Libcurl}
use curlev.Transfer.{Base}
use curlev.Wrapper.Configure.{threaded_callback}
use curlev.Wrapper.Start.{ProtocolLaws, prepared_frame}
use curlev.Wrapper.{
  Wrapper, State, Protocol, is_running, get_code, begin_transfer, submit, finish, do_if_idle,
  prepare_local, is_success, if_success,
}
use curlev.Wrapper.Promise.{
  pending, fulfilled, Launched, settle, settle_unless_running, launch_at, launch, complete,
  complete_at, completed,
}

running_idle : State.running ≡ State.idle → ⊥
running_idle e = cc

not_running : {P : Type 0} (w : Wrapper P) → w.exec_state ≡ State.idle → is_running w ≡ false
unfolding is_running
not_running w e = go w.exec_state e
  where
    go : (s : State) → s ≡ State.idle → elim s [ State.running ↦ true | _ ↦ false ] ≡ false
    go State.idle e = refl
    go State.running e = absurd (running_idle e)
    go State.finished e = refl

threaded_state :
    {P : Type 0} (mode : Bool) (w : Wrapper P)
    → (threaded_callback mode w).exec_state ≡ w.exec_state
unfolding threaded_callback do_if_idle if_success
threaded_state mode w = ground arith

-- What the callback of `launch` may do to the wrapper, and what it tells: `view`, of the code and
-- of the data of the wrapper.
pub record TakeLaws {P R : Type 0} (take : Wrapper P → R × Wrapper P) (view : ℤ → Base → P → R)
    : Type 0 where
  pub state_kept : (w : Wrapper P) → (take w).1.exec_state ≡ w.exec_state
  pub code_kept : (w : Wrapper P) → (take w).1.response_code ≡ w.response_code
  pub told : (w : Wrapper P) → (take w).0 ≡ view (get_code w) w.base w.protocol

module _ {P R : Type 0} (p : Protocol P) (laws : ProtocolLaws p) (lib : Libcurl)
    (take : Wrapper P → R × Wrapper P) (view : ℤ → Base → P → R) (taken : TakeLaws take view) where
  -- The wrapper under the lock of `start`: a transfer runs, or the state is idle.
  abbrev Begun : Wrapper P × Bool → Type 0
  Begun r = r.0.exec_state ≡ (if r.1 then State.running else State.idle)

  submit-Begun :
      (accepted : Bool) (r : Wrapper P × Bool)
      → r.0.exec_state ≡ State.idle
      → Begun (submit r accepted)
  unfolding submit
  submit-Begun true (w, true) e = refl
  submit-Begun false (w, true) e = e
  submit-Begun true (w, false) e = e
  submit-Begun false (w, false) e = e

  begin-Begun :
      (cb : ℕ) (accepted : Bool) (w : Wrapper P)
      → w.exec_state ≡ State.idle
      → Begun (begin_transfer p lib (some cb) accepted w)
  unfolding begin_transfer
  begin-Begun cb accepted w e = elim (Bool-cases (is_success w.response_code)) [
    | inr f ↦ rw (f) e
    | inl s ↦
        let w1 : Wrapper P = record w { user_cb = some cb } in
        rw (s) (
          submit-Begun accepted (and_then (p.prepare_protocol w1) (prepare_local lib))
            ((prepared_frame p laws lib w1).0 ∙ e))
  ]

  -- What the protocol keeps of a transfer that ended with `result`.
  abbrev pub kept_of : ℤ → Base → Wrapper P → P
  kept_of result b w =
      (p.finalize_protocol (record w { base = b; response_code = result })).protocol

  -- What becomes of the promise of a wrapper that is `r` when the lock of `start` is released: it
  -- waits for the transfer that was begun, and its result and what was received, or, where none was
  -- begun, the code is there at once.
  pub data Settled (stored : Base → Base) (result : ℤ) (r : Wrapper P × Bool) (l : Launched P R)
      : Type 0 where
    ran :
        r.1 ≡ true
        → l.wrapper ≡ r.0
        → l.wrapper.exec_state ≡ State.running
        → l.promise ≡ pending
        → (completed p lib take stored result l).promise
          ≡ fulfilled (view result (stored r.0.base) (kept_of result (stored r.0.base) r.0))
        → (completed p lib take stored result l).wrapper.exec_state ≡ State.idle
        → Settled stored result r l
    failed :
        r.1 ≡ false
        → l.wrapper.exec_state ≡ State.idle
        → l.promise ≡ fulfilled (view l.wrapper.response_code r.0.base r.0.protocol)
        → Settled stored result r l

  get_code_of :
      (w : Wrapper P) (b : Bool) → is_running w ≡ b → b ≡ false → get_code w ≡ w.response_code
  unfolding get_code
  get_code_of w b e f = rw (e ∙ f) refl

  finished_code : (result : ℤ) (w : Wrapper P) → get_code (finish p result w) ≡ result
  unfolding finish is_running
  finished_code result w =
      get_code_of (finish p result w) false refl refl
      ∙ ap (λ (x : Wrapper P). x.response_code)
          (laws.finalize_keeps (record w { response_code = result }))

  completed_running :
      (stored : Base → Base) (result : ℤ) (w : Wrapper P)
      → let l : Launched P R =
          complete p lib take result
            (record { wrapper = record w { base = stored w.base }; promise = pending }) in
        (l.wrapper.exec_state ≡ State.idle)
        × (l.promise ≡ fulfilled (view result (stored w.base) (kept_of result (stored w.base) w)))
  unfolding complete settle finish
  completed_running stored result w =
      let v : Wrapper P = record w { base = stored w.base } in
      let u : Wrapper P = finish p result v in
      let same : u.base ≡ stored w.base =
        ap (λ (x : Wrapper P). x.base)
          (laws.finalize_keeps (record v { response_code = result })) in
      (
        refl,
        ap fulfilled (
            taken.told u ∙ λ j.
            view (finished_code result v j) (same j) (kept_of result (stored w.base) w)),
      )

  begun-Settled :
      (stored : Base → Base) (result : ℤ) (r : Wrapper P × Bool)
      → Begun r
      → Settled stored result r (settle_unless_running p lib take r)
  unfolding settle
  begun-Settled stored result (w, true) e =
      let (a, b) = completed_running stored result w in
      let l : Launched P R = record { wrapper = w; promise = pending } in
      ran refl refl e refl
        (subst
          (λ s.
            (complete_at p lib take s stored result l).promise
            ≡ fulfilled (view result (stored w.base) (kept_of result (stored w.base) w)))
          (sym e) b)
        (subst (λ s. (complete_at p lib take s stored result l).wrapper.exec_state ≡ State.idle)
          (sym e) a)
  begun-Settled stored result (w, false) e = failed refl (taken.state_kept w ∙ e) (
      ap fulfilled (
        taken.told w
        ∙ ap (λ c. view c w.base w.protocol)
            (get_code_of w (is_running w) refl (not_running w e) ∙ sym (taken.code_kept w))))

  -- `launch` of an idle object.
  pub launched-Settled :
      (cb : ℕ) (stored : Base → Base) (accepted : Bool) (result : ℤ) (w : Wrapper P)
      → w.exec_state ≡ State.idle
      → Settled stored result
          (begin_transfer p lib (some cb) accepted (threaded_callback false w))
          (launch p lib take cb accepted w)
  unfolding launch
  launched-Settled cb stored accepted result w e =
      let r = begin_transfer p lib (some cb) accepted (threaded_callback false w) in
      subst (λ s. Settled stored result r (launch_at p lib take s cb accepted w)) (sym e)
        (begun-Settled stored result r
          (begin-Begun cb accepted (threaded_callback false w) (threaded_state false w ∙ e)))
