-- ===== src/Wrapper/Promise.antt =====
-- `launch` of src/http.cpp and src/smtp.cpp: `start` of include/wrapper.hpp with the callback that
-- makes a response and fulfils the promise.
pub mod Kept
use curlev.Prelude.{
  ℕ, Bool, true, false, Option, none, some, ◌≡◌, refl, arith, ap, sym, ◌∙◌, subst, and_then,
  Bool-cases, inl, inr, if◌then◌else◌,
}
use curlev.Prelude.Int.{ℤ}
use curlev.Libcurl.{Libcurl}
use curlev.Transfer.{Base}
use curlev.Wrapper.Configure.{threaded_callback}
use curlev.Wrapper.Start.{ProtocolLaws, Keeps, prepared_frame}
use curlev.Wrapper.{
  Wrapper, State, Protocol, is_running, get_code, is_joined, begin_transfer, submit, finish,
  idle_action, do_if_idle, prepare_local, is_success, if_success,
}

-- What a promise holds; a promise that goes away with nothing is broken.
pub data Promise (R : Type 0) : Type 0 where
  pending broken : Promise R
  fulfilled : R → Promise R

-- A wrapper whose future was handed out.
pub record Launched (P R : Type 0) : Type 0 where
  pub wrapper : Wrapper P
  pub promise : Promise R

module _ {P R : Type 0} (p : Protocol P) (lib : Libcurl) (take : Wrapper P → R × Wrapper P) where
  -- `cb_protocol` with the callback, which does not throw.
  unfoldable pub settle : Wrapper P → Launched P R
  settle w =
      let (r, w1) = take w in
      record { wrapper = record w1 { user_cb = none }; promise = fulfilled r }

  abbrev pub settle_unless_running : Wrapper P × Bool → Launched P R
  settle_unless_running (w, true) = record { wrapper = w; promise = pending }
  settle_unless_running (w, false) = settle w

  abbrev pub launch_at : State → ℕ → Bool → Wrapper P → Launched P R
  launch_at State.idle cb accepted w =
      settle_unless_running (begin_transfer p lib (some cb) accepted (threaded_callback false w))
  launch_at State.running cb accepted w = record { wrapper = w; promise = broken }
  launch_at State.finished cb accepted w = record { wrapper = w; promise = broken }

  -- `launch`, whose callback is `cb`.
  unfoldable pub launch : ℕ → Bool → Wrapper P → Launched P R
  unfolding begin_transfer threaded_callback settle
  launch cb accepted w = launch_at w.exec_state cb accepted w

  -- `async_cb`, with that callback.
  unfoldable pub complete : ℤ → Launched P R → Launched P R
  unfolding finish settle
  complete result l =
      let s = settle (finish p result l.wrapper) in
      record s { wrapper = record (s.wrapper) { exec_state = State.idle } }

  abbrev pub complete_at : State → (Base → Base) → ℤ → Launched P R → Launched P R
  complete_at State.running stored result l =
      complete result (record l { wrapper = record (l.wrapper) { base = stored l.wrapper.base } })
  complete_at State.idle stored result l = l
  complete_at State.finished stored result l = l

  -- The transfer, if one runs, stores what it receives, and ends.
  abbrev pub completed : (Base → Base) → ℤ → Launched P R → Launched P R
  completed stored result l = complete_at l.wrapper.exec_state stored result l
