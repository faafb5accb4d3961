-- ===== src/Async/Moves.antt =====
-- A request is started, aborted or done: src/async.cpp.
use curlev.Prelude.{ℕ, ◌<◌, Bool, true, false, ◌≡◌, ◌⊎◌, refl, arith}
use curlev.Prelude.Int.{ℤ}
use curlev.Async.Sets.{
  mem, erase, no_dup, mem-erase, mem-insert, no_dup-insert, length-insert, count, count_of,
}
use curlev.Async.Lifecycle.{IsValid, unpolled-IsValid, completed-IsValid}
use curlev.Async.{
  Async, Pool, initial, start_request, abort_request, fetch_message, curle_aborted_by_callback,
}

module _ {W : Type 0} (p : Pool W) where
  pub initial-IsValid : (w : W) → IsValid (initial w)
  unfolding no_dup mem count count_of
  initial-IsValid w = record {
    distinct = refl;
    counted = refl;
    sound = λ h. record {
      attached = λ e. ground arith;
      polled = λ e. ground arith;
      armed = λ e. ground arith;
      waits = refl;
      closes = λ e. ground arith;
      queued = λ e. refl;
      once = refl;
    };
  }

  pub start-IsValid :
      (k : ℕ) (private_ok can_add : Bool) (s : Async W)
      → IsValid s
      → mem k s.started ≡ false
      → count_of k s.cb_queue ≡ 0
      → IsValid (start_request p k private_ok can_add s).0
  unfolding start_request count
  start-IsValid k private_ok can_add s i st q = record {
    distinct = ground (arith, no_dup-insert k s.started, i.distinct);
    counted = ground (arith, length-insert k s.started, i.counted);
    sound = λ h.
        let j = i.sound h in
        record {
          attached =
              ground (arith, mem-insert h k s.started, mem-insert h k s.attached, j.attached);
          polled = ground (arith, mem-insert h k s.started, mem-insert h k s.multi, j.polled);
          armed = ground (arith, mem-insert h k s.started, mem-insert h k s.multi, j.armed);
          waits = ground (arith, j.waits);
          closes = ground (arith, mem-insert h k s.started, mem-insert h k s.multi, j.closes);
          queued = ground (arith, mem-insert h k s.attached, j.queued);
          once = ground (arith, mem-insert h k s.started, j.once);
        };
  }

  pub abort-IsValid :
      (k : ℕ) (removed timer_ok : Bool) (s : Async W)
      → IsValid s
      → (mem k s.started ≡ true) ⊎ (0 < count_of k s.cb_queue)
      → mem k s.timers ≡ false
      → mem k s.closing ≡ false
      → IsValid (abort_request p k removed timer_ok s)
  unfolding abort_request
  abort-IsValid k false timer_ok s i r ti cl = i
  abort-IsValid k true timer_ok s i r ti cl =
      completed-IsValid p k curle_aborted_by_callback timer_ok
        (record s { multi = erase k s.multi }) (unpolled-IsValid p k s i)
        (ground (arith, (i.sound k).queued)) (ground (arith, mem-erase k k s.multi)) ti cl

  pub done-IsValid :
      (k : ℕ) (code : ℤ) (timer_ok : Bool) (s : Async W)
      → IsValid s
      → mem k s.multi ≡ true
      → IsValid (fetch_message p k code timer_ok s)
  unfolding fetch_message
  done-IsValid k code timer_ok s i mu =
      completed-IsValid p k code timer_ok (record s { multi = erase k s.multi })
        (unpolled-IsValid p k s i) (λ e. (i.sound k).polled mu)
        (ground (arith, mem-erase k k s.multi)) (ground (arith, (i.sound k).armed))
        (ground (arith, (i.sound k).closes))
