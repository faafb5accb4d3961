-- ===== src/Async/Race.antt =====
-- A request that is aborted while it waits for its retry timer, and started again: src/async.cpp.
use curlev.Prelude.{
  ℕ, Bool, true, false, ◌≡◌, arith, ◌∙◌, [], ◌∷◌, ◌++◌, if◌then◌else◌, Bool-cases, inl, inr,
}
use curlev.Prelude.Int.{ℤ}
use curlev.Wrapper.Codes.{error_internal_restart}
use curlev.Async.Sets.{mem, mem-erase, mem-insert}
use curlev.Async.{
  Async, Pool, post_to_wrapper, invoke_wrapper, request_completed, safe_to_restart_outcome,
  start_request, abort_request, repost, uv_restart_cb,
}

module _ {W : Type 0} (p : Pool W) where
  pub abort_then_start : ℕ → Bool → Async W → Async W
  abort_then_start h timer_ok s =
      (start_request p h true true (abort_request p h true timer_ok s)).0

  -- From `s` to `t` the wrapper of `h` is notified of `code`, in the callback thread's queue or at
  -- once.
  abbrev Notified : ℕ → ℤ → Async W → Async W → Type 0
  Notified h code s t =
      if p.use_threaded_cb h s.wrappers
      then (t.cb_queue ≡ s.cb_queue ++ ((h, code) ∷ [])) × (t.notified ≡ s.notified)
      else (t.wrappers ≡ (p.async_cb h code s.wrappers).0) × (t.notified ≡ (h, code) ∷ s.notified)

  -- From `s` to `t`, the transfer goes on in libcurl, and ASync has told the wrapper of an error
  -- and forgotten the request.
  pub record IsLost (h : ℕ) (s t : Async W) : Type 0 where
    pub goes_on : mem h t.multi ≡ true
    pub forgotten : mem h t.started ≡ false
    pub detached : mem h t.attached ≡ false
    pub told : Notified h error_internal_restart s t

  record Aborted (h : ℕ) (s s' : Async W) : Type 0 where
    unpolled : mem h s'.multi ≡ false
    armed : s'.timers ≡ s.timers

  abort-Aborted :
      (h : ℕ) (timer_ok : Bool) (s : Async W) → Aborted h s (abort_request p h true timer_ok s)
  unfolding abort_request request_completed post_to_wrapper invoke_wrapper safe_to_restart_outcome
  abort-Aborted h timer_ok s = record {
    unpolled = ground (arith, mem-erase h h s.multi);
    armed = ground arith;
  }

  record Restarted (h : ℕ) (s s' : Async W) : Type 0 where
    polled : mem h s'.multi ≡ true
    attached : mem h s'.attached ≡ true
    armed : s'.timers ≡ s.timers

  start-Restarted :
      (h : ℕ) (s : Async W)
      → mem h s.multi ≡ false
      → Restarted h s (start_request p h true true s).0
  unfolding start_request
  start-Restarted h s e = record {
    polled = ground (arith, mem-insert h h s.multi);
    attached = ground (arith, mem-insert h h s.attached);
    armed = ground arith;
  }

  restart-IsLost :
      (h : ℕ) (can_add : Bool) (s : Async W)
      → mem h s.multi ≡ true
      → mem h s.attached ≡ true
      → IsLost h s (uv_restart_cb p h can_add s)
  unfolding uv_restart_cb repost post_to_wrapper invoke_wrapper
  restart-IsLost h can_add s m a = record {
    goes_on = ground arith;
    forgotten = ground (arith, mem-erase h h s.started);
    detached = ground (arith, mem-erase h h s.attached);
    told = elim (Bool-cases (p.use_threaded_cb h s.wrappers)) [
      | inl e ↦ rw (m, a, e) (ground arith)
      | inr e ↦ rw (m, a, e) (ground arith)
    ];
  }

  -- Aborting a request leaves the timers of the retries as they are. If a request waits for its
  -- timer, is aborted and is started again before the timer fires, then the timer, when it does,
  -- finds a handle that libcurl has already: ASync notifies the wrapper of an error and forgets
  -- the request, while its transfer goes on.
  pub aborted_retry-IsLost :
      (h : ℕ) (timer_ok can_add : Bool) (s : Async W)
      → ((abort_then_start h timer_ok s).timers ≡ s.timers)
        × IsLost h
            (abort_then_start h timer_ok s)
            (uv_restart_cb p h can_add (abort_then_start h timer_ok s))
  unfolding abort_then_start
  aborted_retry-IsLost h timer_ok can_add s =
      let a = abort_request p h true timer_ok s in
      let aborted = abort-Aborted h timer_ok s in
      let r = start-Restarted h a aborted.unpolled in
      (
        r.armed ∙ aborted.armed,
        restart-IsLost h can_add (start_request p h true true a).0 r.polled r.attached,
      )
