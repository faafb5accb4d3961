-- ===== src/System/Quiet.antt =====
-- ASync when no request runs: src/async.cpp and include/wrapper.hpp.
use curlev.Prelude.{
  ℕ, ◌+◌, Bool, false, List, [], ◌∷◌, ◌≡◌, refl, arith, length, ap, ◌∙◌, sym, subst, ltb,
}
use curlev.Prelude.Int.{ℤ}
use curlev.Libcurl.{Libcurl}
use curlev.Async.{initial}
use curlev.Async.Sets.{mem, count, count_of, no_dup}
use curlev.Wrapper.{Wrapper, State, Protocol}
use curlev.Wrapper.Start.{ProtocolLaws}
use curlev.Async.Moves.{initial-IsValid}
use curlev.System.{pool, Running, Event, handle}
use curlev.System.Wrappers.{Synced, state_of, owed}
use curlev.System.Calls.{CallLaws}
use curlev.System.Invariant.{Possible, due_after, IsCoherent, handle-IsCoherent}

-- A wrapper on which `start` was not called yet.
pub record IsNew {P : Type 0} (w : Wrapper P) : Type 0 where
  pub idle : w.exec_state ≡ State.idle
  pub called : w.called ≡ []

mem_empty : (h : ℕ) (xs : List ℕ) → length xs ≡ 0 → mem h xs ≡ false
unfolding mem
mem_empty h [] e = refl
mem_empty h (x ∷ xs) e = ground (arith, e)

count_of_empty : (h : ℕ) (js : List (ℕ × ℤ)) → length js ≡ 0 → count_of h js ≡ 0
unfolding count_of
count_of_empty h [] e = refl
count_of_empty h (j ∷ js) e = ground (arith, e)

module _ {P O : Type 0} (p : Protocol P) (laws : ProtocolLaws p) (run : O → Wrapper P → Wrapper P)
    (calls : CallLaws run) (lib : Libcurl) (throws : ℕ → Bool) where
  -- The states that ASync and its wrappers come to, and the callbacks each wrapper has been given
  -- up to then.
  pub data Reached : (ℕ → ℕ) → Running P → Type 0 where
    launched : (ws : ℕ → Wrapper P) → ((h : ℕ) → IsNew (ws h)) → Reached (λ h. 0) (initial ws)
    followed :
        (e : Event O) (due : ℕ → ℕ) (s : Running P)
        → Reached due s
        → Possible e s
        → Reached (due_after e s due) (handle p lib throws run e s)

  initial-IsCoherent :
      (ws : ℕ → Wrapper P) → ((h : ℕ) → IsNew (ws h)) → IsCoherent (λ h. 0) (initial ws)
  unfolding mem count count_of no_dup
  initial-IsCoherent ws n = record {
    requests = initial-IsValid (pool p throws) ws;
    synced = λ h. record {
      slots = ground arith;
      state = (n h).idle;
      callbacks = sym ((λ j. length ((n h).called j) + owed ((n h).idle j) ((ws h).user_cb)));
    };
  }

  pub Reached-IsCoherent : (due : ℕ → ℕ) (s : Running P) → Reached due s → IsCoherent due s
  Reached-IsCoherent due s (launched ws n) = initial-IsCoherent ws n
  Reached-IsCoherent due s (followed e d t r g) =
      handle-IsCoherent p laws throws run calls lib e d t g (Reached-IsCoherent d t r)

  -- In every such state, a wrapper runs exactly when its request is among the started ones or waits
  -- for the callback thread, and it has called back as often as it was given a callback, but for
  -- the one it keeps while it runs.
  Reached-Synced :
      (due : ℕ → ℕ) (s : Running P) (h : ℕ)
      → Reached due s
      → Synced (s.wrappers h) (mem h s.started) (count_of h s.cb_queue) (due h)
  Reached-Synced due s h r = (Reached-IsCoherent due s r).synced h

  pub nothing_owed :
      (w : Wrapper P) (n due : ℕ)
      → n ≡ 0
      → Synced w false n due
      → (w.exec_state ≡ State.idle) × (length w.called ≡ due)
  nothing_owed w n due z i =
      let idle : w.exec_state ≡ State.idle =
        i.state ∙ ap state_of {x = ltb 0 n} {y = false} (ground arith) in
      (idle, omega (arith, i.callbacks, ap (λ s. owed s w.user_cb) idle))

  -- Where ASync counts no running request, the wrappers have called back all that they were given.
  pub quiet_called :
      (due : ℕ → ℕ) (s : Running P) (h : ℕ)
      → Reached due s
      → s.nb_running_requests ≡ 0
      → ((s.wrappers h).exec_state ≡ State.idle) × (length (s.wrappers h).called ≡ due h)
  quiet_called due s h r z =
      let i = Reached-IsCoherent due s r in
      let none_started : mem h s.started ≡ false =
        mem_empty h s.started (omega (arith, i.requests.counted, z)) in
      let none_queued : count_of h s.cb_queue ≡ 0 =
        count_of_empty h s.cb_queue (omega (arith, i.requests.counted, z)) in
      nothing_owed (s.wrappers h) (count_of h s.cb_queue) (due h) none_queued (
        subst (λ b. Synced (s.wrappers h) b (count_of h s.cb_queue) (due h)) none_started
          (i.synced h))
