-- ===== src/System.antt =====
-- ASync together with the wrappers that it runs, one for each handle: what `start` of
-- include/wrapper.hpp and src/async.cpp do in common.
pub mod Wrappers
pub mod Notified
pub mod Invariant
pub mod Start
pub mod Events
pub mod Quiet
pub mod Stop
pub mod Handles
pub mod Calls
pub mod Objects
pub mod Refused
use curlev.Prelude.{ℕ, Bool, true, false, ◌+◌, ◌==◌, ◌&&◌, Option, none, some, if◌then◌else◌}
use curlev.Prelude.Int.{ℤ}
use curlev.Libcurl.{Libcurl}
use curlev.Wrapper
use curlev.Wrapper.{Wrapper, State, Protocol}
use curlev.Transfer.{Base}
use curlev.Wrapper.Idle.{Call, perform}
use curlev.Wrapper.Start.{submits}
use curlev.Async.{
  Async, Pool, start_request, fetch_message, uv_restart_cb, deliver, timer_closed,
  abort_pending_request,
}
use curlev.Async.Wrappers.{wrapper_pool, update}
use curlev.Async.Wrappers as Pools

abbrev pub Running : Type 0 → Type 0
Running P = Async (ℕ → Wrapper P)

-- What the user, libcurl, libuv and the threads do. `configured` is a call of a method of Wrapper
-- that configures, `prepared` one of a method of the protocol, `O` being those calls; `transferred`
-- is what the data callbacks make of the wrapper's data; the flags are the answers of libcurl and
-- libuv.
pub data Event (O : Type 0) : Type 0 where
  started : ℕ → Option ℕ → (private_ok can_add : Bool) → Event O
  configured : ℕ → Call → Event O
  prepared : ℕ → O → Event O
  transferred : ℕ → Base → Event O
  aborted : ℕ → (removed timer_ok : Bool) → Event O
  done : ℕ → ℤ → (timer_ok : Bool) → Event O
  restarted : ℕ → (can_add : Bool) → Event O
  closed : ℕ → Event O
  delivered : Event O
  stopping : ℕ → Event O

abbrev pub is_idle : State → Bool
is_idle State.idle = true
is_idle State.running = false
is_idle State.finished = false

-- ASync's part of a call of `start`, if the call comes to it.
abbrev pub asked_if : {W : Type 0} → Bool → Async W × Bool → Async W → Async W
asked_if true r s = r.0
asked_if false r s = s

abbrev pub pool : {P : Type 0} → Protocol P → (ℕ → Bool) → Pool (ℕ → Wrapper P)
pool p throws = wrapper_pool p throws

-- `f` is done to the wrapper of `h` alone.
unfoldable pub change : {P : Type 0} → ℕ → (Wrapper P → Wrapper P) → Running P → Running P
change h f s = record s { wrappers = update h (f (s.wrappers h)) s.wrappers }

module _ {P : Type 0} (p : Protocol P) (lib : Libcurl) (throws : ℕ → Bool) where
  -- ASync after `start` of the wrapper of `h`.
  unfoldable pub ask : ℕ → Option ℕ → Bool → Bool → Running P → Running P
  ask h cb private_ok can_add s =
      let w = s.wrappers h in
      asked_if (is_idle w.exec_state && submits p lib cb w)
        (start_request (pool p throws) h private_ok can_add s) s

  -- `start` of the wrapper of `h`, with ASync::start_request.
  unfoldable pub start : ℕ → Option ℕ → Bool → Bool → Running P → Running P
  start h cb private_ok can_add s =
      let accepted = (start_request (pool p throws) h private_ok can_add s).1 in
      record (ask h cb private_ok can_add s) {
        wrappers = update h (Wrapper.start p lib throws cb accepted (s.wrappers h)) s.wrappers;
      }

  unfoldable pub configure : ℕ → Call → Running P → Running P
  configure h c s = record s {
    wrappers = update h (perform p lib throws c (s.wrappers h)) s.wrappers;
  }

  -- `run` is what the calls of the protocol do to a wrapper.
  unfoldable pub handle :
      {O : Type 0} → (O → Wrapper P → Wrapper P) → Event O → Running P → Running P
  handle run (prepared h o) s = change h (run o) s
  handle run (transferred h b) s = change h (λ w. record w { base = b }) s
  handle run (started h cb private_ok can_add) s = start h cb private_ok can_add s
  handle run (configured h c) s = configure h c s
  handle run (aborted h removed timer_ok) s = Pools.abort p throws h removed timer_ok s
  handle run (done h code timer_ok) s = fetch_message (pool p throws) h code timer_ok s
  handle run (restarted h can_add) s = uv_restart_cb (pool p throws) h can_add s
  handle run (closed h) s = timer_closed (pool p throws) h s
  handle run delivered s = deliver (pool p throws) s
  handle run (stopping h) s = abort_pending_request (pool p throws) h s
