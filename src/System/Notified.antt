-- ===== src/System/Notified.antt =====
-- How a request ends for its wrapper: `request_completed` and `post_to_wrapper` of src/async.cpp
-- over `async_cb` of include/wrapper.hpp.
use curlev.Prelude.{
  by_number, ℕ, ◌+◌, Bool, true, false, ◌&&◌, ◌||◌, ◌==◌, ◌≡◌, refl, arith, [], ◌∷◌, ◌++◌, ltb,
  if◌then◌else◌, subst, ap, sym, ◌∙◌, Bool-cases, inl, inr,
}
use curlev.Prelude.Int.{ℤ}
use curlev.Async.Sets.{mem, erase, count_of, mem-erase, count_of-append}
use curlev.Async.{invoke_wrapper, post_to_wrapper, request_completed, safe_to_restart_outcome}
use curlev.Async.Wrappers.{wrapper_pool, update}
use curlev.Wrapper.{Wrapper, Protocol, async_cb, can_reattempt}
use curlev.Wrapper.Start.{ProtocolLaws}
use curlev.Wrapper.Callback.{Completed, async_cb-Completed}
use curlev.System.{Running}
use curlev.System.Wrappers.{
  Synced, state_of, same-Synced, reattempted-SameCalls, Completed-Synced, update_here, update_there,
}

-- The wrapper of `h` agrees with its request.
abbrev pub IsSynced : {P : Type 0} → (ℕ → ℕ) → Running P → ℕ → Type 0
IsSynced due s h = Synced (s.wrappers h) (mem h s.started) (count_of h s.cb_queue) (due h)

-- The two states agree but for the handle `k`.
abbrev pub Elsewhere : {P : Type 0} → ℕ → Running P → Running P → Type 0
Elsewhere k s t =
    (h : ℕ)
    → (h == k) ≡ false
    → (t.wrappers h ≡ s.wrappers h)
      × (mem h t.started ≡ mem h s.started)
      × (count_of h t.cb_queue ≡ count_of h s.cb_queue)

-- So a step about `k` keeps the others in step.
pub at_handle :
    {P : Type 0} (due : ℕ → ℕ) (k : ℕ) (s t : Running P)
    → Elsewhere k s t
    → IsSynced due t k
    → ((h : ℕ) → IsSynced due s h)
    → (h : ℕ) → IsSynced due t h
at_handle due k s t other here i = by_number (IsSynced due t) k here λ h e.
    let (w, m, c) = other h e in subst (λ x. x) (sym (λ j. Synced (w j) (m j) (c j) (due h))) (i h)

module _ {P : Type 0} (p : Protocol P) (laws : ProtocolLaws p) (throws : ℕ → Bool) where
  -- `invoke_wrapper`, once its request has left the sets or the queue.
  pub invoked-IsSynced :
      (due : ℕ → ℕ) (k : ℕ) (code : ℤ) (s t : Running P)
      → t.wrappers ≡ s.wrappers
      → mem k t.started ≡ false
      → count_of k t.cb_queue ≡ 0
      → Elsewhere k s t
      → (mem k s.started || ltb 0 (count_of k s.cb_queue)) ≡ true
      → ((h : ℕ) → IsSynced due s h)
      → (h : ℕ) → IsSynced due (invoke_wrapper (wrapper_pool p throws) k code t) h
  unfolding invoke_wrapper wrapper_pool
  invoked-IsSynced due k code s t same st qu other busy i =
      let w' = async_cb p throws code (t.wrappers k) in
      let ended : Synced w' false 0 (due k) =
        Completed-Synced throws code (s.wrappers k) w' (mem k s.started) (count_of k s.cb_queue)
          (due k) busy
          (subst (λ (w : Wrapper P). Completed throws code w w') (λ j. same j k)
            (async_cb-Completed p laws throws code (t.wrappers k)))
          (i k) in
      at_handle due k s (invoke_wrapper (wrapper_pool p throws) k code t)
        (λ h e. let (w, m, c) = other h e in (update_there k h w' t.wrappers e ∙ w, m, c))
        (subst (λ x. x) (sym (λ j. Synced (update_here k w' t.wrappers j) (st j) (qu j) (due k)))
          ended)
        i

  -- `k` has gone from the started ones into the queue.
  queued-Synced :
      (k due : ℕ) (w : Wrapper P) (started started1 : Bool) (n n1 : ℕ)
      → started ≡ true
      → started1 ≡ false
      → n1 ≡ n + 1
      → Synced w started n due
      → Synced w started1 n1 due
  queued-Synced k due w started started1 n n1 st gone more i = record {
    slots = ground (arith, i.slots);
    state = i.state ∙ ap state_of (ground arith);
    callbacks = i.callbacks;
  }

  -- `post_to_wrapper`, to the queue or at once.
  pub posted-IsSynced :
      (due : ℕ → ℕ) (k : ℕ) (code : ℤ) (s : Running P)
      → mem k s.started ≡ true
      → ((h : ℕ) → IsSynced due s h)
      → (h : ℕ) → IsSynced due (post_to_wrapper (wrapper_pool p throws) k code s) h
  unfolding post_to_wrapper
  posted-IsSynced due k code s st i =
      let s1 : Running P = record s {
        started = erase k s.started;
        retrying = erase k s.retrying;
        attached = erase k s.attached;
      } in
      let s2 : Running P = record s1 { cb_queue = s.cb_queue ++ ((k, code) ∷ []) } in
      let gone : mem k s1.started ≡ false = ground (arith, mem-erase k k s.started) in
      let there : (h : ℕ) → (h == k) ≡ false → mem h s1.started ≡ mem h s.started =
        λ h e. ground (arith, mem-erase h k s.started) in
      let count : (h : ℕ)
          → count_of h s2.cb_queue ≡ count_of h s.cb_queue + (if h == k then 1 else 0) =
        λ h. count_of-append h k code s.cb_queue in
      elim (Bool-cases ((wrapper_pool p throws).use_threaded_cb k s.wrappers)) [
        | inl e ↦ rw (e) (
            at_handle due k s s2 (λ h d. (refl, there h d, ground (arith, count h)))
              (queued-Synced k (due k) (s.wrappers k) (mem k s.started) (mem k s1.started)
                (count_of k s.cb_queue) (count_of k s2.cb_queue) st gone (ground (arith, count k))
                (i k))
              i)
        | inr e ↦ rw (e) (
            invoked-IsSynced due k code s s1 refl gone (ground (arith, (i k).slots))
              (λ h d. (refl, there h d, refl)) (ground arith) i)
      ]

  -- The wrapper of `k` counts an attempt.
  pub reattempted-IsSynced :
      (due : ℕ → ℕ) (k : ℕ) (s : Running P)
      → ((h : ℕ) → IsSynced due s h)
      → (h : ℕ)
      → IsSynced due
          (record s { wrappers = update k (can_reattempt (s.wrappers k)).0 s.wrappers })
          h
  reattempted-IsSynced due k s i =
      let w : Wrapper P = (can_reattempt (s.wrappers k)).0 in
      at_handle due k s (record s { wrappers = update k w s.wrappers })
        (λ h e. (update_there k h w s.wrappers e, refl, refl))
        (subst (λ x. Synced x (mem k s.started) (count_of k s.cb_queue) (due k))
          (sym (update_here k w s.wrappers))
          (same-Synced (s.wrappers k) w (mem k s.started) (count_of k s.cb_queue) (due k)
            (reattempted-SameCalls (s.wrappers k)) (i k)))
        i

  pub completed-IsSynced :
      (due : ℕ → ℕ) (k : ℕ) (code : ℤ) (timer_ok : Bool) (s : Running P)
      → (mem k s.attached ≡ true → mem k s.started ≡ true)
      → ((h : ℕ) → IsSynced due s h)
      → (h : ℕ) → IsSynced due (request_completed (wrapper_pool p throws) k code timer_ok s) h
  unfolding request_completed wrapper_pool
  completed-IsSynced due k code timer_ok s st i = elim (Bool-cases (mem k s.attached)) [
    | inr e ↦ rw e i
    | inl e ↦
        let w : ℕ → Wrapper P = update k (can_reattempt (s.wrappers k)).0 s.wrappers in
        let j : (h : ℕ) → IsSynced due (record s { wrappers = w }) h =
          reattempted-IsSynced due k s i in
        elim (Bool-cases
          ((can_reattempt (s.wrappers k)).1 && (safe_to_restart_outcome code && timer_ok))) [
            | inl r ↦ rw (e, r) j
            | inr r ↦ rw (e, r) (posted-IsSynced due k code (record s { wrappers = w }) (st e) j)
          ]
  ]
