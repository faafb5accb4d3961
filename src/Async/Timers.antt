-- ===== src/Async/Timers.antt =====
-- The retry timers, and `stop`: src/async.cpp.
use curlev.Prelude.{ℕ, Bool, true, false, ◌≡◌, arith, inl, inr, Bool-cases}
use curlev.Wrapper.Codes.{error_internal_restart}
use curlev.Async.Sets.{mem, insert, erase, mem-erase, mem-insert}
use curlev.Async.Lifecycle.{IsValid, post-IsValid, unpolled-IsValid}
use curlev.Async.{
  Async, Pool, repost, uv_restart_cb, timer_closed, abort_pending_request, abort_retrying_request,
  abort_started_request, curle_aborted_by_callback,
}

module _ {W : Type 0} (p : Pool W) where
  disarmed-IsValid :
      (k : ℕ) (s : Async W)
      → IsValid s
      → IsValid (record s { timers = erase k s.timers; retrying = erase k s.retrying })
  disarmed-IsValid k s i = record {
    distinct = i.distinct;
    counted = i.counted;
    sound = λ h.
        let j = i.sound h in
        record {
          attached = j.attached;
          polled = j.polled;
          armed = ground (arith, mem-erase h k s.timers, j.armed);
          waits = ground (arith, mem-erase h k s.timers, mem-erase h k s.retrying, j.waits);
          closes = j.closes;
          queued = j.queued;
          once = j.once;
        };
  }

  polled-IsValid :
      (k : ℕ) (s : Async W)
      → IsValid s
      → mem k s.started ≡ true
      → mem k s.timers ≡ false
      → mem k s.closing ≡ false
      → IsValid (record s { multi = insert k s.multi })
  polled-IsValid k s i st ti cl = record {
    distinct = i.distinct;
    counted = i.counted;
    sound = λ h.
        let j = i.sound h in
        record {
          attached = j.attached;
          polled = ground (arith, mem-insert h k s.multi, j.polled);
          armed = ground (arith, mem-insert h k s.multi, j.armed);
          waits = j.waits;
          closes = ground (arith, mem-insert h k s.multi, j.closes);
          queued = j.queued;
          once = j.once;
        };
  }

  repost-IsValid :
      (k : ℕ) (can_add : Bool) (s : Async W)
      → IsValid s
      → mem k s.started ≡ true
      → mem k s.multi ≡ false
      → mem k s.timers ≡ false
      → mem k s.closing ≡ false
      → IsValid (repost p k can_add s)
  unfolding repost
  repost-IsValid k false s i st mu ti cl =
      ground (arith, post-IsValid p k error_internal_restart s i st mu ti cl)
  repost-IsValid k true s i st mu ti cl =
      rw ((i.sound k).attached st, mu) (polled-IsValid k s i st ti cl)

  pub restart-IsValid :
      (k : ℕ) (can_add : Bool) (s : Async W)
      → IsValid s
      → mem k s.timers ≡ true
      → IsValid (uv_restart_cb p k can_add s)
  unfolding uv_restart_cb
  restart-IsValid k can_add s i ti =
      let (st, mu, cl) = (i.sound k).armed ti in
      repost-IsValid k can_add
        (record s { timers = erase k s.timers; retrying = erase k s.retrying })
        (disarmed-IsValid k s i) st mu (ground (arith, mem-erase k k s.timers)) cl

  unclosed-IsValid :
      (k : ℕ) (s : Async W) → IsValid s → IsValid (record s { closing = erase k s.closing })
  unclosed-IsValid k s i = record {
    distinct = i.distinct;
    counted = i.counted;
    sound = λ h.
        let j = i.sound h in
        record {
          attached = j.attached;
          polled = j.polled;
          armed = ground (arith, mem-erase h k s.closing, j.armed);
          waits = j.waits;
          closes = ground (arith, mem-erase h k s.closing, j.closes);
          queued = j.queued;
          once = j.once;
        };
  }

  pub closed-IsValid :
      (k : ℕ) (s : Async W) → IsValid s → mem k s.closing ≡ true → IsValid (timer_closed p k s)
  unfolding timer_closed
  closed-IsValid k s i cl =
      let (st, mu) = (i.sound k).closes cl in
      rw ((i.sound k).attached st) (
        post-IsValid p k curle_aborted_by_callback (record s { closing = erase k s.closing })
          (unclosed-IsValid k s i) st mu (ground (arith, (i.sound k).armed))
          (ground (arith, mem-erase k k s.closing)))

  closing-IsValid :
      (k : ℕ) (s : Async W)
      → IsValid s
      → mem k s.started ≡ true
      → mem k s.multi ≡ false
      → mem k s.timers ≡ false
      → IsValid (record s { closing = insert k s.closing })
  closing-IsValid k s i st mu ti = record {
    distinct = i.distinct;
    counted = i.counted;
    sound = λ h.
        let j = i.sound h in
        record {
          attached = j.attached;
          polled = j.polled;
          armed = ground (arith, mem-insert h k s.closing, j.armed);
          waits = j.waits;
          closes = ground (arith, mem-insert h k s.closing, j.closes);
          queued = j.queued;
          once = j.once;
        };
  }

  pub stopping-IsValid :
      (k : ℕ) (s : Async W)
      → IsValid s
      → mem k s.started ≡ true
      → mem k s.closing ≡ false
      → IsValid (abort_pending_request p k s)
  unfolding abort_pending_request abort_retrying_request abort_started_request
  stopping-IsValid k s i st cl = elim (Bool-cases (mem k s.retrying)) [
    | inl r ↦
        rw ((i.sound k).attached st, r)
          (closing-IsValid k (record s { timers = erase k s.timers; retrying = erase k s.retrying })
            (disarmed-IsValid k s i) st (ground (arith, (i.sound k).armed, (i.sound k).waits))
            (ground (arith, mem-erase k k s.timers)))
    | inr r ↦
        rw ((i.sound k).attached st, r)
          (post-IsValid p k curle_aborted_by_callback (record s { multi = erase k s.multi })
            (unpolled-IsValid p k s i) st (ground (arith, mem-erase k k s.multi))
            (ground (arith, (i.sound k).waits)) cl)
  ]
