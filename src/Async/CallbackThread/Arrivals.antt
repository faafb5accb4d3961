-- ===== src/Async/CallbackThread/Arrivals.antt =====
-- The inner loop of the callback thread of src/async.cpp, while others queue notifications.
use curlev.Prelude.{
  is_empty, ℕ, suc, ◌+◌, ◌≤◌, List, [], ◌∷◌, ◌++◌, reverse, length, length-append, take, ◌≡◌, refl,
  arith, ap, sym, ◌∙◌, append_assoc, subst, if◌then◌else◌,
}
use mathlib.Core.List.{reverse-cons}
use curlev.Prelude.Int.{ℤ}
use curlev.Async.{Async, Pool, invoke_wrapper, deliver, deliver_next}

abbrev pub Job : Type 0
Job = ℕ × ℤ

abbrev pub joined : List (List Job) → List Job
joined [] = []
joined (js ∷ jss) = js ++ joined jss

module _ {W : Type 0} (p : Pool W) where
  -- What `post_to_wrapper` does to the queue.
  abbrev pub enqueue : List Job → Async W → Async W
  enqueue more s = record s { cb_queue = s.cb_queue ++ more }

  -- The loop, for at most as many turns as the list has members: each is what others queue while
  -- the mutex is unlocked for the notification of that turn.
  unfoldable pub drain_among : List (List Job) → Async W → Async W
  unfolding deliver
  drain_among [] s = s
  drain_among (more ∷ turns) s =
      let rest = drain_among turns (enqueue more (deliver p s)) in
      if is_empty s.cb_queue then s else rest

  -- From `s` to `t` the loop has emptied its queue: it has delivered the jobs `js`, and after them
  -- those that came during the turns that it made, one each, in order.
  pub record Drained (js : List Job) (turns : List (List Job)) (s t : Async W) : Type 0 where
    pub made : ℕ
    pub empty : t.cb_queue ≡ []
    pub notified : t.notified ≡ reverse (js ++ joined (take made turns)) ++ s.notified
    pub counted :
        t.nb_running_requests + length (js ++ joined (take made turns)) ≡ s.nb_running_requests
    pub untouched : (t.started ≡ s.started) × (t.multi ≡ s.multi)

  no_turn : (turns : List (List Job)) (s : Async W) → s.cb_queue ≡ [] → Drained [] turns s s
  no_turn turns s e = record {
    made = 0;
    empty = e;
    notified = refl;
    counted = omega arith;
    untouched = (refl, refl);
  }

  one_turn :
      (k : ℕ) (code : ℤ) (js more : List Job) (turns : List (List Job)) (s t : Async W)
      → 1 ≤ s.nb_running_requests
      → Drained
          (js ++ more)
          turns
          (enqueue more (invoke_wrapper p k code (record s { cb_queue = js })))
          t
      → Drained ((k, code) ∷ js) (more ∷ turns) s t
  unfolding invoke_wrapper
  one_turn k code js more turns s t l d =
      let later = joined (take d.made turns) in
      let same : (js ++ more) ++ later ≡ js ++ (more ++ later) = append_assoc js more later in
      record {
        made = suc d.made;
        empty = d.empty;
        notified =
            d.notified
            ∙ sym (append_assoc (reverse ((js ++ more) ++ later)) ((k, code) ∷ []) s.notified)
            ∙ ap (λ l. l ++ s.notified) (sym (reverse-cons (k, code) ((js ++ more) ++ later)))
            ∙ ap (λ l. reverse ((k, code) ∷ l) ++ s.notified) same;
        counted = omega (arith, d.counted, l, ap length same);
        untouched = d.untouched;
      }

  drained :
      (turns : List (List Job)) (js : List Job) (s : Async W)
      → s.cb_queue ≡ js
      → length js + length (joined turns) ≤ length turns
      → length js + length (joined turns) ≤ s.nb_running_requests
      → Drained js turns s (drain_among turns s)
  unfolding drain_among deliver
  drained [] [] s e l n = no_turn [] s e
  drained [] (j ∷ js) s e l n = absurd (omega (arith, l))
  drained (more ∷ turns) [] s e l n =
      subst (Drained [] (more ∷ turns) s)
        (sym (λ j.
          if is_empty (e j) then s else drain_among turns (enqueue more (deliver_next p (e j) s))))
        (no_turn (more ∷ turns) s e)
  drained (more ∷ turns) ((k, code) ∷ js) s e l n =
      let s1 : Async W = enqueue more (invoke_wrapper p k code (record s { cb_queue = js })) in
      subst (Drained ((k, code) ∷ js) (more ∷ turns) s)
        (sym (λ j.
          if is_empty (e j) then s else drain_among turns (enqueue more (deliver_next p (e j) s))))
        (one_turn k code js more turns s (drain_among turns s1) (omega (arith, n)) (
          drained turns (js ++ more) s1 (queue_of k code js more s)
            (omega (arith, l, length-append js more, length-append more (joined turns)))
            (less k code js more turns s n)))
    where
      queue_of :
          (k : ℕ) (code : ℤ) (js more : List Job) (s : Async W)
          → (enqueue more (invoke_wrapper p k code (record s { cb_queue = js }))).cb_queue
            ≡ js ++ more
      queue_of k code js more s = unfold invoke_wrapper in refl

      less :
          (k : ℕ) (code : ℤ) (js more : List Job) (turns : List (List Job)) (s : Async W)
          → length ((k, code) ∷ js) + length (joined (more ∷ turns)) ≤ s.nb_running_requests
          → length (js ++ more) + length (joined turns)
            ≤ (invoke_wrapper p k code (record s { cb_queue = js })).nb_running_requests
      less k code js more turns s n =
          unfold invoke_wrapper in
          omega (arith, n, length-append js more, length-append more (joined turns))

  -- Whatever others queue while a notification is delivered: the inner loop of the callback thread
  -- ends after as many turns as there are jobs, those that come meanwhile included, and then the
  -- queue is empty; each job, of the queue and of those that came during a turn, has been delivered
  -- once, in the order in which they were queued; and the count of running requests, which is
  -- assumed to count all these jobs before, has gone down by as many. Of what the others do, only
  -- what they queue is considered.
  pub drain_among-Drained :
      (turns : List (List Job)) (s : Async W)
      → length s.cb_queue + length (joined turns) ≤ length turns
      → length s.cb_queue + length (joined turns) ≤ s.nb_running_requests
      → Drained s.cb_queue turns s (drain_among turns s)
  drain_among-Drained turns s l n = drained turns s.cb_queue s refl l n
