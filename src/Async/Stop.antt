-- ===== src/Async/Stop.antt =====
-- A forced `stop` of src/async.cpp: `abort_pending_requests`, the callbacks of uv_close, the
-- callback thread.
use curlev.Prelude.{
  is_empty, by_number, ℕ, zero, suc, ◌≤◌, true, false, List, [], ◌∷◌, length, ◌==◌, ◌≡◌, refl,
  arith, ap, sym, ◌∙◌, Bool-cases, inl, inr, subst,
}
use curlev.Async.Sets.{mem, no_dup}
use curlev.Async.Lifecycle.{IsValid}
use curlev.Async.Timers.{closed-IsValid, stopping-IsValid}
use curlev.Async.CallbackThread.{drain, Delivered, drain-Delivered}
use curlev.Async.{
  Async, Pool, timer_closed, abort_pending_request, abort_pending_loop, abort_pending_requests,
}
use curlev.Async.{deliver}
use curlev.Async.Events.{handle-IsValid}
use curlev.Async.Events
use curlev.Async.Stopping.{close_timers, aborted-Beside, closed-Beside}

apart : (h k : ℕ) (ks : List ℕ) → mem h ks ≡ true → mem k ks ≡ false → (h == k) ≡ false
apart h k ks m n = elim (Bool-cases (h == k)) [
  | inr e ↦ e
  | inl e ↦ absurd (clash (sym (subst (λ x. mem x ks ≡ true) (ground (arith, e)) m) ∙ n))
]
  where
    clash : true ≡ false → ⊥
    clash q = cc

length_none : (xs : List ℕ) → ((h : ℕ) → mem h xs ≡ false) → length xs ≡ 0
unfolding mem
length_none [] f = refl
length_none (x ∷ xs) f = ground (arith, f x)

-- What a step of a forced `stop` keeps.
pub record Keeps {W : Type 0} (p : Pool W) (Q : Async W → Type 0) : Type 0 where
  pub stopping :
      (k : ℕ) (s : Async W)
      → IsValid s
      → mem k s.started ≡ true
      → mem k s.closing ≡ false
      → Q s
      → Q (abort_pending_request p k s)
  pub closed :
      (k : ℕ) (s : Async W) → IsValid s → mem k s.closing ≡ true → Q s → Q (timer_closed p k s)
  pub delivered : (s : Async W) → IsValid s → Q s → Q (deliver p s)

-- The state once `abort_pending_requests` and the callbacks of uv_close are done.
abbrev pub closed_all : {W : Type 0} → Pool W → Async W → Async W
closed_all p s = let s1 = abort_pending_requests p s in close_timers p s1.closing s1

-- All requests of a state, ended by force.
abbrev pub forced : {W : Type 0} → Pool W → ℕ → Async W → Async W
forced p turns s = drain p turns (closed_all p s)

module _ {W : Type 0} (p : Pool W) (Q : Async W → Type 0) (keeps : Keeps p Q) where
  -- Every request that is left waits for the callback of uv_close.
  record IsClosing (s : Async W) : Type 0 where
    valid : IsValid s
    kept : Q s
    all : (h : ℕ) → mem h s.started ≡ mem h s.closing
    distinct : no_dup s.closing ≡ true

  abort_loop-IsClosing :
      (ks : List ℕ) (s : Async W)
      → IsValid s
      → Q s
      → no_dup ks ≡ true
      → ((h : ℕ) → mem h ks ≡ true → (mem h s.started ≡ true) × (mem h s.closing ≡ false))
      → ((h : ℕ) → mem h ks ≡ false → mem h s.started ≡ mem h s.closing)
      → no_dup s.closing ≡ true
      → IsClosing (abort_pending_loop p ks s)
  unfolding abort_pending_loop no_dup mem
  abort_loop-IsClosing [] s i q d todo done c = record {
    valid = i;
    kept = q;
    all = λ h. done h refl;
    distinct = c;
  }
  abort_loop-IsClosing (k ∷ ks) s i q d todo done c =
      let (st, cl) = todo k (ground arith) in
      let (b, here) = aborted-Beside p k s ((i.sound k).attached st) st cl in
      let s1 : Async W = abort_pending_request p k s in
      abort_loop-IsClosing ks s1 (stopping-IsValid p k s i st cl) (keeps.stopping k s i st cl q)
        (ground (arith, d))
        (λ h m.
          let e : (h == k) ≡ false = apart h k ks m (ground (arith, d)) in
          let (x, y) = todo h (ground (arith, m)) in (b.started h e ∙ x, b.closing h e ∙ y))
        (by_number (λ h. mem h ks ≡ false → mem h s1.started ≡ mem h s1.closing) k (λ m. here)
          λ h e m. b.started h e ∙ done h (ground (arith, e, m)) ∙ sym (b.closing h e))
        (b.distinct c)

  close_loop :
      (ks : List ℕ) (s : Async W)
      → IsClosing s
      → no_dup ks ≡ true
      → ((h : ℕ) → mem h ks ≡ mem h s.closing)
      → IsValid (close_timers p ks s)
        × Q (close_timers p ks s)
        × ((h : ℕ) → mem h (close_timers p ks s).started ≡ false)
  unfolding close_timers no_dup mem
  close_loop [] s i d same = (i.valid, i.kept, λ h. i.all h ∙ sym (same h))
  close_loop (k ∷ ks) s i d same =
      let cl : mem k s.closing ≡ true = ground (arith, same k) in
      let st : mem k s.started ≡ true = i.all k ∙ cl in
      let (b, gone, shut) = closed-Beside p k s ((i.valid.sound k).attached st) in
      let s1 : Async W = timer_closed p k s in
      close_loop ks s1
        (record {
          valid = closed-IsValid p k s i.valid cl;
          kept = keeps.closed k s i.valid cl i.kept;
          all =
              by_number (λ h. mem h s1.started ≡ mem h s1.closing) k (gone ∙ sym shut)
                λ h e. b.started h e ∙ i.all h ∙ sym (b.closing h e);
          distinct = b.distinct i.distinct;
        })
        (ground (arith, d))
        (by_number (λ h. mem h ks ≡ mem h s1.closing) k (ground (arith, d, shut))
          λ h e. ground (arith, same h, b.closing h e, e))

  drain_keeps : (turns : ℕ) (s : Async W) → IsValid s → Q s → Q (drain p turns s)
  unfolding drain Events.handle
  drain_keeps zero s i q = q
  drain_keeps (suc n) s i q = elim (Bool-cases (is_empty s.cb_queue)) [
    | inl e ↦ rw e q
    | inr e ↦ rw e (
        drain_keeps n (deliver p s) (handle-IsValid p Events.delivered s i tt)
          (keeps.delivered s i q))
  ]

  pub forced-ends :
      (turns : ℕ) (s : Async W)
      → IsValid s
      → Q s
      → s.closing ≡ []
      → length (closed_all p s).cb_queue ≤ turns
      → Q (forced p turns s)
        × ((forced p turns s).nb_running_requests ≡ 0)
        × ((forced p turns s).cb_queue ≡ [])
        × ((h : ℕ) → mem h (forced p turns s).started ≡ false)
  unfolding abort_pending_requests no_dup mem Events.handle
  forced-ends turns s i q none l =
      let s1 : Async W = abort_pending_requests p s in
      let s2 : Async W = close_timers p s1.closing s1 in
      let i1 : IsClosing s1 =
        abort_loop-IsClosing s.started s i q i.distinct (λ h m. (m, ap (mem h) none))
          (λ h m. m ∙ sym (ap (mem h) none)) (ap no_dup none) in
      let (i2, q2, gone) = close_loop s1.closing s1 i1 i1.distinct (λ h. refl) in
      let d : Delivered p s2.cb_queue s2 (drain p turns s2) = drain-Delivered p turns s2 l in
      (
        drain_keeps turns s2 i2 q2,
        omega (arith, d.counted, i2.counted, length_none s2.started gone),
        d.empty,
        λ h. ap (mem h) d.untouched.0 ∙ gone h,
      )

module _ {W : Type 0} (p : Pool W) where
  -- From a valid state, in which no timer is being closed yet, a forced `stop` ends every request:
  -- once the callbacks of uv_close have run and the callback thread has made as many turns as there
  -- are jobs, no request is registered, none waits to be notified, and none is counted as running,
  -- so that the second wait of `stop` succeeds.
  pub forced_none_running :
      (turns : ℕ) (s : Async W)
      → IsValid s
      → s.closing ≡ []
      → length (closed_all p s).cb_queue ≤ turns
      → ((forced p turns s).nb_running_requests ≡ 0)
        × ((forced p turns s).cb_queue ≡ [])
        × ((h : ℕ) → mem h (forced p turns s).started ≡ false)
  forced_none_running turns s i none l =
      let (q, nb, queue, gone) =
        forced-ends p (λ s. Unit)
          (record {
            stopping = λ k s i st cl q. tt;
            closed = λ k s i cl q. tt;
            delivered = λ s i q. tt;
          })
          turns s i tt none l in
      (nb, queue, gone)
