-- ===== src/Async/RunMutex/Exclusion.antt =====
-- m_uv_run_mutex and m_nb_waiting_requests of src/async.cpp: the threads that start or abort a
-- request, and the worker that runs libuv, exclude each other.
use curlev.Prelude.{
  not, ◌&&◌, set_at, set_at_here, set_at_there, by_number, ℕ, ◌+◌, Bool, true, false, List, [], ◌∷◌,
  ◌==◌, if◌then◌else◌, ◌≡◌, refl, arith, ap, sym, ◌∙◌, subst, Bool-cases, inl, inr,
}
use curlev.Async.Sets.{mem, no_dup}
use curlev.Async.RunMutex.{
  Phase, outside, announced, locked, counted, Holder, nobody, worker, thread, Turn,
  uv_run_accept_requests, Step, announce, lock, count, leave, accept, await, resume, Reachable,
  at_start, after,
}

abbrev pub waits : Phase → ℕ
waits outside = 0
waits announced = 1
waits locked = 1
waits counted = 0

abbrev pub inside : Phase → Bool
inside outside = false
inside announced = false
inside locked = true
inside counted = true

unfoldable pub waiting : List ℕ → (ℕ → Phase) → ℕ
waiting [] phase = 0
waiting (h ∷ hs) phase = waits (phase h) + waiting hs phase

clash : false ≡ true → ⊥
clash e = cc

waiting_elsewhere :
    (hs : List ℕ) (h : ℕ) (p : Phase) (phase : ℕ → Phase)
    → mem h hs ≡ false
    → waiting hs (set_at h p phase) ≡ waiting hs phase
unfolding waiting mem
waiting_elsewhere [] h p phase e = refl
waiting_elsewhere (k ∷ hs) h p phase e =
    ground (
      arith,
      waiting_elsewhere hs h p phase,
      ap waits (set_at_there h k p phase (ground (arith, e))),
    )

waiting_moved :
    (hs : List ℕ) (h : ℕ) (p : Phase) (phase : ℕ → Phase)
    → no_dup hs ≡ true
    → mem h hs ≡ true
    → waiting hs (set_at h p phase) + waits (phase h) ≡ waiting hs phase + waits p
unfolding waiting mem no_dup
waiting_moved [] h p phase d e = absurd (clash e)
waiting_moved (k ∷ hs) h p phase d e = elim (Bool-cases (h == k)) [
  | inl q ↦
      let same : k ≡ h = ground (arith, q) in
      ground (
        arith,
        waiting_elsewhere hs h p phase (ground (arith, d, ap (λ n. mem n hs) same)),
        ap waits (set_at_here h p phase),
        ap (λ n. waits (set_at h p phase n)) same,
        ap (λ n. waits (phase n)) same,
      )
  | inr q ↦ ground (
    arith,
    waiting_moved hs h p phase (ground (arith, d)) (ground (arith, e)),
    ap waits (set_at_there h k p phase (ground (arith, q))),
  )
]

record IsExclusive (hs : List ℕ) (s : Turn) : Type 0 where
  counts : s.nb_waiting_requests ≡ waiting hs s.phase
  alone : (h : ℕ) → inside (s.phase h) ≡ true → s.holder ≡ thread h

abbrev number_of : Holder → ℕ
number_of nobody = 0
number_of worker = 0
number_of (thread h) = h

-- A state that no thread holds has none inside.
none_inside :
    (hs : List ℕ) (s : Turn) (o : Holder)
    → s.holder ≡ o
    → ((h : ℕ) → o ≡ thread h → ⊥)
    → IsExclusive hs s
    → (h : ℕ) → inside (s.phase h) ≡ false
none_inside hs s o e f i h = elim (Bool-cases (inside (s.phase h))) [
  | inl t ↦ absurd (f h (sym e ∙ i.alone h t))
  | inr t ↦ t
]

same_number : {h k : ℕ} → k ≡ h → (k == h) ≡ true
same_number e = ground (arith, e)

nobody_worker : nobody ≡ worker → ⊥
nobody_worker e = cc

not_nobody : (h : ℕ) → nobody ≡ thread h → ⊥
not_nobody h e = cc

not_worker : (h : ℕ) → worker ≡ thread h → ⊥
not_worker h e = cc

initial_none : (hs : List ℕ) → 0 ≡ waiting hs (λ h. outside)
unfolding waiting
initial_none [] = refl
initial_none (h ∷ hs) = ground (arith, initial_none hs)

step-IsExclusive :
    (hs : List ℕ) (s t : Turn)
    → no_dup hs ≡ true
    → Step hs s t
    → IsExclusive hs s
    → IsExclusive hs t
unfolding uv_run_accept_requests
step-IsExclusive hs _ _ d (announce h s m p) i = record {
  counts = ground (arith, waiting_moved hs h announced s.phase d m, i.counts, ap waits p);
  alone =
      by_number (λ k. inside (set_at h announced s.phase k) ≡ true → s.holder ≡ thread k) h
        (λ e. absurd (clash (sym (ap inside (set_at_here h announced s.phase)) ∙ e)))
        λ k n e. i.alone k (sym (ap inside (set_at_there h k announced s.phase n)) ∙ e);
}
step-IsExclusive hs _ _ d (lock h s m p o) i = record {
  counts = ground (arith, waiting_moved hs h locked s.phase d m, i.counts, ap waits p);
  alone =
      by_number (λ k. inside (set_at h locked s.phase k) ≡ true → thread h ≡ thread k) h (λ e. refl)
        λ k n e. absurd (
          clash (
            sym (none_inside hs s nobody o not_nobody i k)
            ∙ sym (ap inside (set_at_there h k locked s.phase n))
            ∙ e));
}
step-IsExclusive hs _ _ d (count h s m p) i = record {
  counts = ground (arith, waiting_moved hs h counted s.phase d m, i.counts, ap waits p);
  alone =
      by_number (λ k. inside (set_at h counted s.phase k) ≡ true → s.holder ≡ thread k) h
        (λ e. i.alone h (ap inside p))
        λ k n e. i.alone k (sym (ap inside (set_at_there h k counted s.phase n)) ∙ e);
}
step-IsExclusive hs _ _ d (leave h s m p) i = record {
  counts = ground (arith, waiting_moved hs h outside s.phase d m, i.counts, ap waits p);
  alone =
      by_number (λ k. inside (set_at h outside s.phase k) ≡ true → nobody ≡ thread k) h
        (λ e. absurd (clash (sym (ap inside (set_at_here h outside s.phase)) ∙ e)))
        λ k n e.
          let other : s.holder ≡ thread k =
            i.alone k (sym (ap inside (set_at_there h k outside s.phase n)) ∙ e) in
          let same : (k == h) ≡ true =
            same_number (ap number_of (sym other ∙ i.alone h (ap inside p))) in
          absurd (clash (sym n ∙ same));
}
step-IsExclusive hs _ _ d (accept s o) i = elim (Bool-cases (s.nb_waiting_requests == 0)) [
  | inl z ↦ rw (z) i
  | inr z ↦ rw (z) (record {
    counts = i.counts;
    alone = λ h e. absurd (clash (sym (none_inside hs s worker o not_worker i h) ∙ e));
  })
]
step-IsExclusive hs _ _ d (await s o) i = record {
  counts = i.counts;
  alone = λ h e. absurd (clash (sym (none_inside hs s worker o not_worker i h) ∙ e));
}
step-IsExclusive hs _ _ d (resume s o) i = record {
  counts = i.counts;
  alone = λ h e. absurd (clash (sym (none_inside hs s nobody o not_nobody i h) ∙ e));
}

Reachable-IsExclusive :
    (hs : List ℕ) (s : Turn) → no_dup hs ≡ true → Reachable hs s → IsExclusive hs s
Reachable-IsExclusive hs _ d at_start = record {
  counts = initial_none hs;
  alone = λ h e. absurd (clash e);
}
Reachable-IsExclusive hs _ d (after s t r st) =
    step-IsExclusive hs s t d st (Reachable-IsExclusive hs s d r)

none_waits :
    (hs : List ℕ) (phase : ℕ → Phase) (h : ℕ)
    → waiting hs phase ≡ 0
    → mem h hs ≡ true
    → waits (phase h) ≡ 0
unfolding waiting mem
none_waits [] phase h z m = absurd (clash m)
none_waits (k ∷ hs) phase h z m = elim (Bool-cases (h == k)) [
  | inl q ↦
      let same : k ≡ h = ground (arith, q) in
      subst (λ n. waits (phase n) ≡ 0) same (ground (arith, z))
  | inr q ↦ none_waits hs phase h (ground (arith, z)) (ground (arith, m, q))
]

found_outside : (p : Phase) → waits p ≡ 0 → inside p ≡ false → p ≡ outside
found_outside outside z i = refl
found_outside announced z i = ground (arith, z)
found_outside locked z i = ground (arith, z)
found_outside counted z i = ground (arith, i)

-- The worker keeps the lock only if no request waits.
unlocked_not : (s : Turn) → (uv_run_accept_requests s).holder ≡ worker → s.nb_waiting_requests ≡ 0
unfolding uv_run_accept_requests
unlocked_not s z = elim (Bool-cases (s.nb_waiting_requests == 0)) [
  | inl e ↦ ground (arith, e)
  | inr e ↦
      absurd (
        nobody_worker
          (ap (λ b. (if b then s else record s { holder = nobody }).holder) (sym e) ∙ z))
]

abbrev is_outside : Phase → Bool
is_outside outside = true
is_outside announced = false
is_outside locked = false
is_outside counted = false

abbrev is_worker : Holder → Bool
is_worker nobody = false
is_worker worker = true
is_worker (thread h) = false

-- Two threads past the lock; one, beside the worker; a thread that has announced itself, but for
-- which the worker does not unlock.
abbrev pub both_inside : Turn → ℕ → ℕ → Bool
both_inside s h k = inside (s.phase h) && (inside (s.phase k) && not (h == k))

abbrev pub inside_beside_worker : Turn → ℕ → Bool
inside_beside_worker s h = inside (s.phase h) && is_worker s.holder

abbrev pub passed_over : Turn → ℕ → Bool
passed_over s h =
    is_worker s.holder
    && (is_worker (uv_run_accept_requests s).holder && not (is_outside (s.phase h)))

at_once : (a b c : Bool) → (a ≡ true → b ≡ true → c ≡ true) → (a && (b && not c)) ≡ false
at_once false b c f = refl
at_once true false c f = refl
at_once true true c f = ground (arith, f refl refl)

beside : (a : Bool) (o : Holder) → (o ≡ worker → a ≡ false) → (a && is_worker o) ≡ false
beside a nobody f = ground arith
beside a (thread h) f = ground arith
beside a worker f = ground (arith, f refl)

passed :
    (a b : Holder) (p : Phase)
    → (a ≡ worker → b ≡ worker → p ≡ outside)
    → (is_worker a && (is_worker b && not (is_outside p))) ≡ false
passed nobody b p f = refl
passed (thread h) b p f = refl
passed worker nobody p f = refl
passed worker (thread h) p f = refl
passed worker worker p f = ap (λ q. not (is_outside q)) (f refl refl)

-- In every state that the worker and some threads, each listed once, come to, in whatever order
-- they take their steps: no two threads are inside start_request or abort_request past the lock,
-- and none is while the worker holds it; and when the worker finds no waiting request and goes on
-- to the next uv_run without unlocking, no thread has announced one.
pub exclusive_turns :
    (hs : List ℕ) (s : Turn) (h k : ℕ)
    → no_dup hs ≡ true
    → Reachable hs s
    → mem h hs ≡ true
    → (both_inside s h k ≡ false) × (inside_beside_worker s h ≡ false) × (passed_over s h ≡ false)
exclusive_turns hs s h k d r m =
    let i = Reachable-IsExclusive hs s d r in
    let none : s.holder ≡ worker → inside (s.phase h) ≡ false =
      λ o. none_inside hs s worker o not_worker i h in
    (
      at_once (inside (s.phase h)) (inside (s.phase k)) (h == k)
          λ a b. same_number (ap number_of (sym (i.alone h a) ∙ i.alone k b)),
      beside (inside (s.phase h)) s.holder none,
      passed s.holder (uv_run_accept_requests s).holder (s.phase h) λ o z.
          found_outside (s.phase h) (none_waits hs s.phase h (sym i.counts ∙ unlocked_not s z) m)
            (none o),
    )
