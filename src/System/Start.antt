-- ===== src/System/Start.antt =====
-- `start` of include/wrapper.hpp, with ASync::start_request of src/async.cpp.
use curlev.Prelude.{
  by_number, ℕ, ◌+◌, Bool, true, false, ◌&&◌, ◌||◌, not, Option, ◌≡◌, refl, arith, ◌==◌, ltb,
  if◌then◌else◌, subst, ap, sym, ◌∙◌, Bool-cases, inl, inr, length,
}
use curlev.Libcurl.{Libcurl}
use curlev.Async.Sets.{mem, count_of, mem-insert}
use curlev.Async.Lifecycle.{IsValid, rewrap-IsValid}
use curlev.Async.Moves.{start-IsValid}
use curlev.Async.{start_request}
use curlev.Wrapper
use curlev.Wrapper.{Wrapper, State, Protocol, do_if_idle}
use curlev.Wrapper.Start.{ProtocolLaws, submits, Outcome, begun, ended, start-Outcome}
use curlev.System.{Running, pool, ask, asked_if, start, is_idle}
use curlev.System.Wrappers.{
  Synced, state_of, owed, weight, length-invoked, owed_running, update_here, update_there,
}
use curlev.System.Notified.{IsSynced}

-- The callbacks that were handed over, once `start` gave `w` the callback `cb`.
abbrev pub given : {P : Type 0} → Option ℕ → Wrapper P → ℕ → ℕ
given cb w n = n + (if is_idle w.exec_state then weight cb else 0)

idle_state : (b : Bool) → is_idle (state_of b) ≡ not b
idle_state true = refl
idle_state false = refl

pub is_idle-true : (e : State) → is_idle e ≡ true → e ≡ State.idle
is_idle-true State.idle h = refl
is_idle-true State.running h = cc
is_idle-true State.finished h = cc

module _ {P : Type 0} where
  -- An idle wrapper has no request.
  free :
      (w : Wrapper P) (started : Bool) (n due : ℕ)
      → is_idle w.exec_state ≡ true
      → Synced w started n due
      → (started ≡ false) × (n ≡ 0)
  free w started n due e i =
      let b : is_idle w.exec_state ≡ not (started || ltb 0 n) =
        ap is_idle i.state ∙ idle_state (started || ltb 0 n) in
      ground (arith, b, i.slots)

  pub do_if_idle_busy :
      (action : Wrapper P → Wrapper P) (w : Wrapper P)
      → is_idle w.exec_state ≡ false
      → do_if_idle action w ≡ w
  unfolding do_if_idle
  do_if_idle_busy action w e = go w.exec_state e
    where
      go : (s : State) → is_idle s ≡ false → curlev.Wrapper.idle_action s action w ≡ w
      go State.idle h = cc
      go State.running h = refl
      go State.finished h = refl

module _ {P : Type 0} (p : Protocol P) (laws : ProtocolLaws p) (lib : Libcurl) where
  -- The wrapper once `start` has been called, whose request ASync took or not.
  begun-Synced :
      (cb : Option ℕ) (accepted : Bool) (w w' : Wrapper P) (started' : Bool) (n due : ℕ)
      → is_idle w.exec_state ≡ true
      → started' ≡ (submits p lib cb w && accepted)
      → Outcome p laws lib cb accepted w w'
      → Synced w false 0 due
      → n ≡ 0
      → Synced w' started' n (due + weight cb)
  begun-Synced cb accepted w w' started' n due e st (begun a b _ r c same _) i z = record {
    slots = ground arith;
    state = r ∙ sym (ap state_of {x = started' || ltb 0 n} {y = true} (ground arith));
    callbacks = omega (
      arith,
      i.callbacks,
      ap (λ s. owed s w.user_cb) (is_idle-true w.exec_state e),
      owed_running cb,
      ap length same,
      ap (λ s. owed s w'.user_cb) r,
      ap (owed State.running) c,
    );
  }
  begun-Synced cb accepted w w' started' n due e st (ended x r called) i z = record {
    slots = ground arith;
    state = r ∙ sym (ap state_of {x = started' || ltb 0 n} {y = false} (ground arith));
    callbacks = omega (
      arith,
      i.callbacks,
      ap (λ s. owed s w.user_cb) (is_idle-true w.exec_state e),
      ap length called,
      length-invoked cb w.called,
      ap (λ s. owed s w'.user_cb) r,
    );
  }

  requested :
      (throws : ℕ → Bool) (h : ℕ) (private_ok can_add : Bool) (s : Running P)
      → let r = start_request (pool p throws) h private_ok can_add s in
        ((k : ℕ) → mem k r.0.started ≡ ((k == h && r.1) || mem k s.started))
        × (r.0.cb_queue ≡ s.cb_queue)
  unfolding start_request
  requested throws h private_ok can_add s =
      (λ k. ground (arith, mem-insert k h s.started), ground arith)

  asked_sets :
      (throws : ℕ → Bool) (h : ℕ) (private_ok can_add b : Bool) (s : Running P)
      → let r = start_request (pool p throws) h private_ok can_add s in
        let s1 = asked_if b r s in
        ((k : ℕ) → mem k s1.started ≡ ((k == h && (b && r.1)) || mem k s.started))
        × (s1.cb_queue ≡ s.cb_queue)
  asked_sets throws h private_ok can_add true s = requested throws h private_ok can_add s
  asked_sets throws h private_ok can_add false s = (λ k. ground arith, refl)

  asked-IsValid :
      (throws : ℕ → Bool) (h : ℕ) (private_ok can_add b : Bool) (s : Running P)
      → IsValid s
      → (b ≡ true → (mem h s.started ≡ false) × (count_of h s.cb_queue ≡ 0))
      → IsValid (asked_if b (start_request (pool p throws) h private_ok can_add s) s)
  asked-IsValid throws h private_ok can_add true s i f =
      let (st, q) = f refl in start-IsValid (pool p throws) h private_ok can_add s i st q
  asked-IsValid throws h private_ok can_add false s i f = i

  pub started-IsValid :
      (throws : ℕ → Bool) (due : ℕ → ℕ) (h : ℕ) (cb : Option ℕ) (private_ok can_add : Bool)
      (s : Running P)
      → IsValid s
      → IsSynced due s h
      → IsValid (start p lib throws h cb private_ok can_add s)
  unfolding start ask
  started-IsValid throws due h cb private_ok can_add s i j =
      let w = s.wrappers h in
      let b = is_idle w.exec_state && submits p lib cb w in
      rewrap-IsValid (pool p throws) _
        (asked_if b (start_request (pool p throws) h private_ok can_add s) s)
        (asked-IsValid throws h private_ok can_add b s i
          λ e. free w (mem h s.started) (count_of h s.cb_queue) (due h) (ground arith) j)

  start_busy :
      (throws : ℕ → Bool) (cb : Option ℕ) (accepted : Bool) (w : Wrapper P)
      → is_idle w.exec_state ≡ false
      → Wrapper.start p lib throws cb accepted w ≡ w
  unfolding Wrapper.start
  start_busy throws cb accepted w e = do_if_idle_busy _ w e

  -- The wrapper that was called.
  started_here :
      (throws : ℕ → Bool) (h : ℕ) (cb : Option ℕ) (accepted started started' : Bool) (n n' due : ℕ)
      (w : Wrapper P)
      → started' ≡ (((is_idle w.exec_state && submits p lib cb w) && accepted) || started)
      → n' ≡ n
      → Synced w started n due
      → Synced (Wrapper.start p lib throws cb accepted w) started' n' (given cb w due)
  started_here throws h cb accepted started started' n n' due w st same i =
      let w' = Wrapper.start p lib throws cb accepted w in
      elim (Bool-cases (is_idle w.exec_state)) [
        | inl e ↦
            let (a, b) = free w started n due e i in
            rw (e) (
              begun-Synced cb accepted w w' started' n' due e (ground arith)
                (start-Outcome p laws lib throws cb accepted w (is_idle-true w.exec_state e))
                (subst (λ x. x) (λ j. Synced w (a j) (b j) due) i) (same ∙ b))
        | inr e ↦ rw (e) (
            subst (λ x. x)
              (sym (λ j. Synced (start_busy throws cb accepted w e j) (kept e j) (same j) (left j)))
              i)
      ]
    where
      left : due + 0 ≡ due
      left = omega arith

      kept : is_idle w.exec_state ≡ false → started' ≡ started
      kept e = ground arith

  pub started-IsSynced :
      (throws : ℕ → Bool) (due : ℕ → ℕ) (h : ℕ) (cb : Option ℕ) (private_ok can_add : Bool)
      (s : Running P)
      → ((k : ℕ) → IsSynced due s k)
      → (k : ℕ)
      → IsSynced
          (λ k. due k + (if k == h && is_idle (s.wrappers h).exec_state then weight cb else 0))
          (start p lib throws h cb private_ok can_add s)
          k
  unfolding start ask
  started-IsSynced throws due h cb private_ok can_add s i =
      let w = s.wrappers h in
      let accepted = (start_request (pool p throws) h private_ok can_add s).1 in
      let w' = Wrapper.start p lib throws cb accepted w in
      let b = is_idle w.exec_state && submits p lib cb w in
      let t : Running P = start p lib throws h cb private_ok can_add s in
      let due' : ℕ → ℕ =
        λ k. due k + (if k == h && is_idle (s.wrappers h).exec_state then weight cb else 0) in
      let (st, qu) = asked_sets throws h private_ok can_add b s in
      let more : due' h ≡ given cb w (due h) = ground arith in
      let there : (k : ℕ) → (k == h) ≡ false → due' k ≡ due k = λ k e. rw (e) (omega arith) in
      let other : (k : ℕ) → (k == h) ≡ false → mem k t.started ≡ mem k s.started =
        λ k e. ground (arith, st k) in
      by_number (IsSynced due' t) h
        (subst (λ x. x)
          (sym (λ j.
            Synced (update_here h w' s.wrappers j) (mem h t.started) (count_of h t.cb_queue)
              (more j)))
          (started_here throws h cb accepted (mem h s.started) (mem h t.started)
            (count_of h s.cb_queue) (count_of h t.cb_queue) (due h) w (ground (arith, st h))
            (ap (count_of h) qu) (i h)))
        λ k e.
          subst (λ x. x)
            (sym (λ j.
              Synced (update_there h k w' s.wrappers e j) (other k e j) (count_of k (qu j))
                (there k e j)))
            (i k)
