-- ===== src/Async/Events.antt =====
-- Event by event, what holds of the requests of ASync: src/async.cpp.
use curlev.Prelude.{ℕ, ◌<◌, Bool, true, false, List, [], ◌∷◌, ◌≡◌, ◌⊎◌, refl, arith, length, ap}
use curlev.Prelude.Int.{ℤ}
use curlev.Async.Sets.{mem, count_of}
use curlev.Async.Lifecycle.{IsValid}
use curlev.Async.{
  Async, Pool, invoke_wrapper, start_request, abort_request, fetch_message, uv_restart_cb, deliver,
  deliver_next, timer_closed, abort_pending_request,
}
use curlev.Async.Moves.{start-IsValid, abort-IsValid, done-IsValid}
use curlev.Async.Timers.{restart-IsValid, closed-IsValid, stopping-IsValid}

-- What happens to ASync: calls of its wrappers, messages and timers of libcurl and libuv, a turn of
-- the callback thread, a turn of `stop`. The flags are the answers of libcurl and libuv.
pub data Event : Type 0 where
  start : ℕ → (private_ok can_add : Bool) → Event
  abort : ℕ → (removed timer_ok : Bool) → Event
  done : ℕ → ℤ → (timer_ok : Bool) → Event
  restart : ℕ → (can_add : Bool) → Event
  closed : ℕ → Event
  delivered : Event
  stopping : ℕ → Event

module _ {W : Type 0} (p : Pool W) where
  unfoldable pub handle : Event → Async W → Async W
  handle (start h private_ok can_add) s = (start_request p h private_ok can_add s).0
  handle (abort h removed timer_ok) s = abort_request p h removed timer_ok s
  handle (done h code timer_ok) s = fetch_message p h code timer_ok s
  handle (restart h can_add) s = uv_restart_cb p h can_add s
  handle (closed h) s = timer_closed p h s
  handle delivered s = deliver p s
  handle (stopping h) s = abort_pending_request p h s

-- When an event may happen. A wrapper starts a request when its last one was notified, and aborts
-- one that was not, which neither waits to be restarted nor is being closed; libcurl sends messages
-- for handles it has; armed and closing timers fire.
abbrev pub Allowed : {W : Type 0} → Event → Async W → Type 0
Allowed (start h private_ok can_add) s = (mem h s.started ≡ false) × (count_of h s.cb_queue ≡ 0)
Allowed (abort h removed timer_ok) s =
    ((mem h s.started ≡ true) ⊎ (0 < count_of h s.cb_queue))
    × (mem h s.timers ≡ false)
    × (mem h s.closing ≡ false)
Allowed (done h code timer_ok) s = mem h s.multi ≡ true
Allowed (restart h can_add) s = mem h s.timers ≡ true
Allowed (closed h) s = mem h s.closing ≡ true
Allowed delivered s = Unit
Allowed (stopping h) s = (mem h s.started ≡ true) × (mem h s.closing ≡ false)

module _ {W : Type 0} (p : Pool W) where
  invoked-IsValid :
      (k : ℕ) (code : ℤ) (js : List (ℕ × ℤ)) (s : Async W)
      → IsValid s
      → s.cb_queue ≡ (k, code) ∷ js
      → IsValid (invoke_wrapper p k code (record s { cb_queue = js }))
  unfolding invoke_wrapper count_of
  invoked-IsValid k code js s i e = record {
    distinct = i.distinct;
    counted = ground (arith, i.counted, ap length e);
    sound = λ h.
        let j = i.sound h in
        record {
          attached = j.attached;
          polled = j.polled;
          armed = j.armed;
          waits = j.waits;
          closes = j.closes;
          queued = ground (arith, j.queued, ap (count_of h) e);
          once = ground (arith, j.once, ap (count_of h) e);
        };
  }

  delivered_from :
      (js : List (ℕ × ℤ)) (s : Async W)
      → IsValid s
      → s.cb_queue ≡ js
      → IsValid (deliver_next p js s)
  delivered_from [] s i e = i
  delivered_from ((k, code) ∷ js) s i e = invoked-IsValid k code js s i e

  delivered-IsValid : (s : Async W) → IsValid s → IsValid (deliver p s)
  unfolding deliver
  delivered-IsValid s i = delivered_from s.cb_queue s i refl

  pub handle-IsValid : (e : Event) (s : Async W) → IsValid s → Allowed e s → IsValid (handle p e s)
  unfolding handle
  handle-IsValid (start h private_ok can_add) s i (st, q) =
      start-IsValid p h private_ok can_add s i st q
  handle-IsValid (abort h removed timer_ok) s i (r, ti, cl) =
      abort-IsValid p h removed timer_ok s i r ti cl
  handle-IsValid (done h code timer_ok) s i mu = done-IsValid p h code timer_ok s i mu
  handle-IsValid (restart h can_add) s i ti = restart-IsValid p h can_add s i ti
  handle-IsValid (closed h) s i cl = closed-IsValid p h s i cl
  handle-IsValid delivered s i a = delivered-IsValid s i
  handle-IsValid (stopping h) s i (st, cl) = stopping-IsValid p h s i st cl
