-- ===== src/Async/Lifecycle.antt =====
-- What holds of the requests of ASync over their life: src/async.cpp.
use curlev.Prelude.{
  ℕ, ◌+◌, Bool, true, false, ◌&&◌, [], ◌∷◌, ◌≡◌, arith, if◌then◌else◌, length, length-append, inl,
  inr, Bool-cases,
}
use curlev.Prelude.Int.{ℤ}
use curlev.Async.Sets.{
  mem, insert, erase, no_dup, mem-erase, mem-insert, no_dup-erase, length-erase, count, count_of,
  count_of-append,
}
use curlev.Async.{
  Async, Pool, invoke_wrapper, post_to_wrapper, request_completed, safe_to_restart_outcome,
}

abbrev pub flag : Bool → ℕ
flag b = if b then 1 else 0

-- What holds of the handle `h`.
pub record IsSound {W : Type 0} (s : Async W) (h : ℕ) : Type 0 where
  pub attached : mem h s.started ≡ true → mem h s.attached ≡ true
  pub polled : mem h s.multi ≡ true → mem h s.started ≡ true
  pub armed :
      mem h s.timers ≡ true
      → (mem h s.started ≡ true) × (mem h s.multi ≡ false) × (mem h s.closing ≡ false)
  pub waits : mem h s.retrying ≡ mem h s.timers
  pub closes : mem h s.closing ≡ true → (mem h s.started ≡ true) × (mem h s.multi ≡ false)
  pub queued : mem h s.attached ≡ true → count_of h s.cb_queue ≡ 0
  pub once :
      count h s.accepted ≡ count_of h s.notified + count_of h s.cb_queue + flag (mem h s.started)

pub record IsValid {W : Type 0} (s : Async W) : Type 0 where
  pub distinct : no_dup s.started ≡ true
  pub counted : s.nb_running_requests ≡ length s.started + length s.cb_queue
  pub sound : (h : ℕ) → IsSound s h

module _ {W : Type 0} (p : Pool W) where
  post-IsSound :
      (k : ℕ) (code : ℤ) (s : Async W) (h : ℕ)
      → IsSound s h
      → mem k s.started ≡ true
      → mem k s.multi ≡ false
      → mem k s.timers ≡ false
      → mem k s.closing ≡ false
      → IsSound (post_to_wrapper p k code s) h
  unfolding post_to_wrapper invoke_wrapper count count_of
  post-IsSound k code s h i st mu ti cl = record {
    attached = ground (arith, mem-erase h k s.started, mem-erase h k s.attached, i.attached);
    polled = ground (arith, mem-erase h k s.started, i.polled);
    armed = ground (arith, mem-erase h k s.started, i.armed);
    waits = ground (arith, mem-erase h k s.retrying, i.waits);
    closes = ground (arith, mem-erase h k s.started, i.closes);
    queued =
        ground (arith, mem-erase h k s.attached, count_of-append h k code s.cb_queue, i.queued);
    once = ground (arith, mem-erase h k s.started, count_of-append h k code s.cb_queue, i.once);
  }

  pub post-IsValid :
      (k : ℕ) (code : ℤ) (s : Async W)
      → IsValid s
      → mem k s.started ≡ true
      → mem k s.multi ≡ false
      → mem k s.timers ≡ false
      → mem k s.closing ≡ false
      → IsValid (post_to_wrapper p k code s)
  unfolding post_to_wrapper invoke_wrapper
  post-IsValid k code s i st mu ti cl = record {
    distinct = ground (arith, no_dup-erase k s.started, i.distinct);
    counted = ground (
      arith,
      length-erase k s.started i.distinct,
      length-append s.cb_queue ((k, code) ∷ []),
      i.counted,
    );
    sound = λ h. post-IsSound k code s h (i.sound h) st mu ti cl;
  }

  pub unpolled-IsValid :
      (k : ℕ) (s : Async W) → IsValid s → IsValid (record s { multi = erase k s.multi })
  unpolled-IsValid k s i = record {
    distinct = i.distinct;
    counted = i.counted;
    sound = λ h.
        let j = i.sound h in
        record {
          attached = j.attached;
          polled = ground (arith, mem-erase h k s.multi, j.polled);
          armed = ground (arith, mem-erase h k s.multi, j.armed);
          waits = j.waits;
          closes = ground (arith, mem-erase h k s.multi, j.closes);
          queued = j.queued;
          once = j.once;
        };
  }

  pub rewrap-IsValid : (w : W) (s : Async W) → IsValid s → IsValid (record s { wrappers = w })
  rewrap-IsValid w s i = record {
    distinct = i.distinct;
    counted = i.counted;
    sound = λ h.
        let j = i.sound h in
        record {
          attached = j.attached;
          polled = j.polled;
          armed = j.armed;
          waits = j.waits;
          closes = j.closes;
          queued = j.queued;
          once = j.once;
        };
  }

  rearmed-IsValid :
      (k : ℕ) (s : Async W)
      → IsValid s
      → mem k s.started ≡ true
      → mem k s.multi ≡ false
      → mem k s.closing ≡ false
      → IsValid (record s { retrying = insert k s.retrying; timers = insert k s.timers })
  rearmed-IsValid k s i st mu cl = record {
    distinct = i.distinct;
    counted = i.counted;
    sound = λ h.
        let j = i.sound h in
        record {
          attached = j.attached;
          polled = j.polled;
          armed = ground (arith, mem-insert h k s.timers, j.armed);
          waits = ground (arith, mem-insert h k s.timers, mem-insert h k s.retrying, j.waits);
          closes = j.closes;
          queued = j.queued;
          once = j.once;
        };
  }

  pub completed-IsValid :
      (k : ℕ) (code : ℤ) (timer_ok : Bool) (s : Async W)
      → IsValid s
      → (mem k s.attached ≡ true → mem k s.started ≡ true)
      → mem k s.multi ≡ false
      → mem k s.timers ≡ false
      → mem k s.closing ≡ false
      → IsValid (request_completed p k code timer_ok s)
  unfolding request_completed
  completed-IsValid k code timer_ok s i st mu ti cl = elim (Bool-cases (mem k s.attached)) [
    | inr e ↦ rw e i
    | inl e ↦
        let w : W = (p.can_reattempt k s.wrappers).0 in
        elim (Bool-cases
          ((p.can_reattempt k s.wrappers).1 && (safe_to_restart_outcome code && timer_ok))) [
            | inl r ↦
                rw (e, r)
                  (rearmed-IsValid k (record s { wrappers = w }) (rewrap-IsValid w s i) (st e) mu
                    cl)
            | inr r ↦
                rw (e, r)
                  (post-IsValid k code (record s { wrappers = w }) (rewrap-IsValid w s i) (st e) mu
                    ti cl)
          ]
  ]
