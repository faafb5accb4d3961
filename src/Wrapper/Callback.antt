-- ===== src/Wrapper/Callback.antt =====
-- `async_cb` of include/wrapper.hpp, and the one call of the user's callback.
use curlev.Prelude.{
  ℕ, Bool, Option, none, some, ◌≡◌, refl, arith, if◌then◌else◌, ◌∙◌, ap, sym, subst,
}
use curlev.Prelude.Int.{ℤ}
use curlev.Libcurl.{Libcurl}
use curlev.Wrapper.Codes.{error_user_callback}
use curlev.Wrapper.Start.{ProtocolLaws, invoked, Outcome, begun, ended, start-Outcome}
use curlev.Wrapper.{Wrapper, State, Protocol, invoke, cb_protocol, start, finish, async_cb}

-- The code that the user sees: the result of the transfer, unless the callback threw.
abbrev pub code_after : (ℕ → Bool) → Option ℕ → ℤ → ℤ
code_after throws none code = code
code_after throws (some c) code = if throws c then error_user_callback else code

-- A callback that threw is kept.
abbrev pub kept : (ℕ → Bool) → Option ℕ → Option ℕ
kept throws none = none
kept throws (some c) = if throws c then some c else none

pub record Completed {P : Type 0} (throws : ℕ → Bool) (result : ℤ) (w w' : Wrapper P) : Type 0 where
  pub idle : w'.exec_state ≡ State.idle
  pub called : w'.called ≡ invoked w.user_cb w.called
  pub code : w'.response_code ≡ code_after throws w.user_cb result
  pub forgotten : w'.user_cb ≡ kept throws w.user_cb
  pub response : w'.base ≡ w.base

module _ {P : Type 0} (p : Protocol P) (laws : ProtocolLaws p) where
  invoke_completes :
      (throws : ℕ → Bool) (cb : Option ℕ) (result : ℤ) (w u : Wrapper P)
      → w.user_cb ≡ cb
      → u ≡ record w {
        exec_state = State.finished;
        response_code = result;
        curl = u.curl;
        protocol = u.protocol;
      }
      → Completed throws result w (record (invoke throws cb u) { exec_state = State.idle })
  unfolding invoke
  invoke_completes throws none result w u c e = ground arith
  invoke_completes throws (some x) result w u c e = ground arith

  -- When a transfer ends, its result is stored, the user's callback is invoked exactly once, and the
  -- wrapper is idle again, with the response as it was received. The user sees the result, unless
  -- the callback threw: then the code says so, and the callback is kept.
  pub async_cb-Completed :
      (throws : ℕ → Bool) (result : ℤ) (w : Wrapper P)
      → Completed throws result w (async_cb p throws result w)
  unfolding async_cb finish cb_protocol
  async_cb-Completed throws result w =
      let w1 : Wrapper P = record w { response_code = result } in
      let u : Wrapper P = finish p result w in
      let e : u ≡ record w {
        exec_state = State.finished;
        response_code = result;
        curl = u.curl;
        protocol = u.protocol;
      } =
        ap (λ (x : Wrapper P). record x { exec_state = State.finished }) (laws.finalize_keeps w1) in
      let same : u.user_cb ≡ w.user_cb = ap (λ (x : Wrapper P). x.user_cb) e in
      subst
        (λ cb. Completed throws result w (record (invoke throws cb u) { exec_state = State.idle }))
        (sym same) (invoke_completes throws w.user_cb result w u refl e)

  -- The wrapper once all is done: a transfer that `start` began has ended.
  abbrev completed_at : State → (ℕ → Bool) → ℤ → Wrapper P → Wrapper P
  completed_at State.running throws result w = async_cb p throws result w
  completed_at State.idle throws result w = w
  completed_at State.finished throws result w = w

  abbrev pub completed : (ℕ → Bool) → ℤ → Wrapper P → Wrapper P
  completed throws result w = completed_at w.exec_state throws result w

  -- `cb` was invoked once, and the wrapper is idle.
  abbrev Done : Option ℕ → Wrapper P → Wrapper P → Type 0
  Done cb w w' = (w'.called ≡ invoked cb w.called) × (w'.exec_state ≡ State.idle)

  once :
      (lib : Libcurl) (throws : ℕ → Bool) (cb : Option ℕ) (accepted : Bool) (result : ℤ)
      (w w1 : Wrapper P)
      → Outcome p laws lib cb accepted w w1
      → Done cb w (completed throws result w1)
  once lib throws cb accepted result w w1 (begun _ _ _ r c same _) =
      let v = async_cb-Completed throws result w1 in
      subst (λ s. Done cb w (completed_at s throws result w1)) (sym r)
        (v.called ∙ (λ i. invoked (c i) (same i)), v.idle)
  once lib throws cb accepted result w w1 (ended _ i called) =
      subst (λ s. Done cb w (completed_at s throws result w1)) (sym i) (called, i)

  -- Whatever comes of it, a call of `start` on an idle wrapper leads, once its transfer is over if
  -- it began one, to exactly one call of the callback that it was given, if any, and leaves the
  -- wrapper idle.
  pub called_once :
      (lib : Libcurl) (throws : ℕ → Bool) (cb : Option ℕ) (accepted : Bool) (result : ℤ)
      (w : Wrapper P)
      → w.exec_state ≡ State.idle
      → let w' = completed throws result (start p lib throws cb accepted w) in
        (w'.called ≡ invoked cb w.called) × (w'.exec_state ≡ State.idle)
  called_once lib throws cb accepted result w i =
      once lib throws cb accepted result w (start p lib throws cb accepted w)
        (start-Outcome p laws lib throws cb accepted w i)
