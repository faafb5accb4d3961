-- ===== src/Async/CallbackThread.antt =====
-- The callback thread of ASync, `cb_init` and `cb_clear` of src/async.cpp.
pub mod Arrivals
use curlev.Prelude.{
  is_empty, ℕ, zero, suc, ◌-◌, ◌≤◌, List, [], ◌∷◌, ◌++◌, reverse, length, ◌≡◌, refl, arith, ap, sym,
  ◌∙◌, append_assoc, subst, if◌then◌else◌,
}
use mathlib.Core.List.{reverse-cons}
use curlev.Prelude.Int.{ℤ}
use curlev.Async.{Async, Pool, invoke_wrapper, deliver, deliver_next}

module _ {W : Type 0} (p : Pool W) where
  -- The inner loop of the thread, on fuel.
  unfoldable pub drain : ℕ → Async W → Async W
  unfolding deliver
  drain zero s = s
  drain (suc n) s = let rest = drain n (deliver p s) in if is_empty s.cb_queue then s else rest

  -- The jobs `js` have been done, one after the other.
  pub record Delivered (js : List (ℕ × ℤ)) (s t : Async W) : Type 0 where
    pub empty : t.cb_queue ≡ []
    pub notified : t.notified ≡ reverse js ++ s.notified
    pub counted : t.nb_running_requests ≡ s.nb_running_requests - length js
    pub untouched : (t.started ≡ s.started) × (t.multi ≡ s.multi)

  unqueued :
      (k : ℕ) (code : ℤ) (js : List (ℕ × ℤ)) (s : Async W)
      → (invoke_wrapper p k code (record s { cb_queue = js })).cb_queue ≡ js
  unfolding invoke_wrapper
  unqueued k code js s = refl

  after_one :
      (k : ℕ) (code : ℤ) (js : List (ℕ × ℤ)) (s t : Async W)
      → Delivered js (invoke_wrapper p k code (record s { cb_queue = js })) t
      → Delivered ((k, code) ∷ js) s t
  unfolding invoke_wrapper
  after_one k code js s t d = record {
    empty = d.empty;
    notified =
        d.notified
        ∙ sym (append_assoc (reverse js) ((k, code) ∷ []) s.notified)
        ∙ ap (λ l. l ++ s.notified) (sym (reverse-cons (k, code) js));
    counted = omega (arith, d.counted);
    untouched = d.untouched;
  }

  drained :
      (n : ℕ) (js : List (ℕ × ℤ)) (s : Async W)
      → s.cb_queue ≡ js
      → length js ≤ n
      → Delivered js s (drain n s)
  unfolding drain deliver
  drained zero [] s e l = record {
    empty = e;
    notified = refl;
    counted = omega arith;
    untouched = (refl, refl);
  }
  drained zero (j ∷ js) s e l = absurd (omega (arith, l))
  drained (suc n) [] s e l =
      subst (Delivered [] s)
        (sym (λ j. if is_empty (e j) then s else drain n (deliver_next p (e j) s)))
        (record { empty = e; notified = refl; counted = omega arith; untouched = (refl, refl) })
  drained (suc n) ((k, code) ∷ js) s e l =
      let s1 : Async W = invoke_wrapper p k code (record s { cb_queue = js }) in
      subst (Delivered ((k, code) ∷ js) s)
        (sym (λ j. if is_empty (e j) then s else drain n (deliver_next p (e j) s)))
        (after_one k code js s (drain n s1)
          (drained n js s1 (unqueued k code js s) (omega (arith, l))))

  -- The inner loop of the callback thread ends after as many turns as there are jobs, and then the
  -- queue is empty, every job has been delivered once, in the order in which they were queued, and
  -- the count of running requests has gone down by as many; the requests that are started and the
  -- handles that libcurl has are as before.
  pub drain-Delivered :
      (n : ℕ) (s : Async W) → length s.cb_queue ≤ n → Delivered s.cb_queue s (drain n s)
  drain-Delivered n s l = drained n s.cb_queue s refl l
