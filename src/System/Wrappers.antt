-- ===== src/System/Wrappers.antt =====
-- One wrapper under its request: include/wrapper.hpp.
use curlev.Prelude.{
  ℕ, ◌+◌, ◌≤◌, Bool, true, false, ◌||◌, ◌≡◌, refl, arith, Option, none, some, List, length, ltb,
  ◌==◌, ap, ◌∙◌, sym,
}
use curlev.Prelude.Int.{ℤ}
use curlev.Libcurl.{Libcurl}
use curlev.Async.Lifecycle.{flag}
use curlev.Async.Wrappers.{update}
use curlev.Wrapper.{Wrapper, State, Protocol, do_if_idle, if_success, can_reattempt}
use curlev.Wrapper.Configure.{
  options, authentication, certificates, threaded_callback, maximal_response_size, maximum_retries,
  safe_protocols, set_options, set_authentication, set_certificates,
}
use curlev.Wrapper.Idle.{
  Call, options_with, authentication_with, certificates_with, safe_protocols_with, callback_mode,
  response_size, retries, start_with, perform,
}
use curlev.Wrapper.Latch.{IsConfig}
use curlev.Wrapper.Start.{invoked}
use curlev.Wrapper.Callback.{Completed}

abbrev pub state_of : Bool → State
state_of true = State.running
state_of false = State.idle

-- The callback that a wrapper still has to invoke.
abbrev pub owed : State → Option ℕ → ℕ
owed State.running (some c) = 1
owed State.running none = 0
owed State.idle cb = 0
owed State.finished cb = 0

abbrev pub weight : Option ℕ → ℕ
weight none = 0
weight (some c) = 1

-- A wrapper whose request is `started`, or waits `queued` times to be notified, and which was
-- given `due` callbacks.
pub record Synced {P : Type 0} (w : Wrapper P) (started : Bool) (queued due : ℕ) : Type 0 where
  pub slots : queued + flag started ≤ 1
  pub state : w.exec_state ≡ state_of (started || ltb 0 queued)
  pub callbacks : due ≡ length w.called + owed w.exec_state w.user_cb

pub length-invoked :
    (cb : Option ℕ) (called : List ℕ) → length (invoked cb called) ≡ length called + weight cb
length-invoked none called = omega arith
length-invoked (some c) called = omega arith

pub owed_running : (cb : Option ℕ) → owed State.running cb ≡ weight cb
owed_running none = refl
owed_running (some c) = refl

module _ {P : Type 0} where
  -- A step that changes neither the state nor the callbacks.
  abbrev pub SameCalls : Wrapper P → Wrapper P → Type 0
  SameCalls w w' =
      (w'.exec_state ≡ w.exec_state) × (w'.user_cb ≡ w.user_cb) × (w'.called ≡ w.called)

  pub same-Synced :
      (w w' : Wrapper P) (started : Bool) (queued due : ℕ)
      → SameCalls w w'
      → Synced w started queued due
      → Synced w' started queued due
  same-Synced w w' started queued due (state, user, called) i = record {
    slots = i.slots;
    state = state ∙ i.state;
    callbacks = i.callbacks ∙ sym (λ j. length (called j) + owed (state j) (user j));
  }

  pub configured-SameCalls :
      (p : Protocol P) (lib : Libcurl) (throws : ℕ → Bool) (c : Call) (w : Wrapper P)
      → IsConfig c
      → SameCalls w (perform p lib throws c w)
  unfolding perform options authentication certificates threaded_callback maximal_response_size
      maximum_retries safe_protocols do_if_idle if_success set_options set_authentication
      set_certificates
  configured-SameCalls p lib throws (options_with s) w k = ground arith
  configured-SameCalls p lib throws (authentication_with s) w k = ground arith
  configured-SameCalls p lib throws (certificates_with s) w k = ground arith
  configured-SameCalls p lib throws (safe_protocols_with s) w k = ground arith
  configured-SameCalls p lib throws (callback_mode mode) w k = ground arith
  configured-SameCalls p lib throws (response_size size) w k = ground arith
  configured-SameCalls p lib throws (retries n delay_ms) w k = ground arith
  configured-SameCalls p lib throws (start_with cb accepted) w k = absurd k

  pub reattempted-SameCalls : (w : Wrapper P) → SameCalls w (can_reattempt w).0
  unfolding can_reattempt
  reattempted-SameCalls w = (refl, refl, refl)

  pub Completed-Synced :
      (throws : ℕ → Bool) (code : ℤ) (w w' : Wrapper P) (started : Bool) (queued due : ℕ)
      → (started || ltb 0 queued) ≡ true
      → Completed throws code w w'
      → Synced w started queued due
      → Synced w' false 0 due
  Completed-Synced throws code w w' started queued due busy c i = record {
    slots = ground arith;
    state = c.idle;
    callbacks = omega (
      arith,
      i.callbacks,
      ap (λ e. owed e w.user_cb) (i.state ∙ ap state_of busy),
      owed_running w.user_cb,
      ap length c.called,
      length-invoked w.user_cb w.called,
      ap (λ e. owed e w'.user_cb) c.idle,
    );
  }

pub update_here : {P : Type 0} (k : ℕ) (w : Wrapper P) (f : ℕ → Wrapper P) → update k w f k ≡ w
unfolding update
update_here k w f = ground arith

pub update_there :
    {P : Type 0} (k h : ℕ) (w : Wrapper P) (f : ℕ → Wrapper P)
    → (h == k) ≡ false
    → update k w f h ≡ f h
unfolding update
update_there k h w f e = rw e refl
