-- ===== src/System/Calls.antt =====
-- What ASync and the wrappers want of a call of a protocol, such as REQUEST: include/wrapper.hpp.
use curlev.Prelude.{
  List, ℕ, ◌+◌, Bool, false, ◌≡◌, refl, ap, ◌∙◌, sym, subst, length, Bool-cases, inl, inr,
}
use curlev.Transfer.{Base}
use curlev.Wrapper.{Wrapper}
use curlev.Async.Sets.{mem, count_of}
use curlev.System.{Running, change, is_idle}
use curlev.System.Wrappers.{Synced, owed, same-Synced, update_here, update_there}
use curlev.System.Notified.{IsSynced, at_handle}
use curlev.System.Start.{is_idle-true}

-- A call leaves the state and the callbacks that were invoked alone, and changes nothing at all
-- unless the wrapper is idle.
pub record CallLaws {P O : Type 0} (run : O → Wrapper P → Wrapper P) : Type 0 where
  pub state_kept : (o : O) (w : Wrapper P) → (run o w).exec_state ≡ w.exec_state
  pub called_kept : (o : O) (w : Wrapper P) → (run o w).called ≡ w.called
  pub busy_kept : (o : O) (w : Wrapper P) → is_idle w.exec_state ≡ false → run o w ≡ w

module _ {P : Type 0} where
  run-Synced :
      {O : Type 0} (run : O → Wrapper P → Wrapper P) (laws : CallLaws run) (o : O) (w : Wrapper P)
      (started : Bool) (queued due : ℕ)
      → Synced w started queued due
      → Synced (run o w) started queued due
  run-Synced run laws o w started queued due i = elim (Bool-cases (is_idle w.exec_state)) [
    | inr busy ↦ subst (λ v. Synced v started queued due) (sym (laws.busy_kept o w busy)) i
    | inl free ↦
        let idle = is_idle-true w.exec_state free in
        record {
          slots = i.slots;
          state = laws.state_kept o w ∙ i.state;
          callbacks =
              i.callbacks
              ∙ ap (λ e. length w.called + owed e w.user_cb) idle
              ∙ sym (
                  ap (λ e. length (run o w).called + owed e (run o w).user_cb)
                    (laws.state_kept o w ∙ idle)
                  ∙ ap (λ (l : List ℕ). length l + 0) (laws.called_kept o w));
        }
  ]

  changed-IsSynced :
      (due : ℕ → ℕ) (k : ℕ) (f : Wrapper P → Wrapper P) (s : Running P)
      → ((started : Bool) (queued due : ℕ)
          → Synced (s.wrappers k) started queued due
          → Synced (f (s.wrappers k)) started queued due)
      → ((h : ℕ) → IsSynced due s h)
      → (h : ℕ) → IsSynced due (change k f s) h
  unfolding change
  changed-IsSynced due k f s kept i =
      let w = f (s.wrappers k) in
      at_handle due k s (change k f s) (λ h e. (update_there k h w s.wrappers e, refl, refl))
        (subst (λ x. Synced x (mem k s.started) (count_of k s.cb_queue) (due k))
          (sym (update_here k w s.wrappers))
          (kept (mem k s.started) (count_of k s.cb_queue) (due k) (i k)))
        i

  pub prepared-IsSynced :
      {O : Type 0} (run : O → Wrapper P → Wrapper P) (laws : CallLaws run) (due : ℕ → ℕ) (k : ℕ)
      (o : O) (s : Running P)
      → ((h : ℕ) → IsSynced due s h)
      → (h : ℕ) → IsSynced due (change k (run o) s) h
  prepared-IsSynced run laws due k o s i =
      changed-IsSynced due k (run o) s (run-Synced run laws o (s.wrappers k)) i

  pub transferred-IsSynced :
      (due : ℕ → ℕ) (k : ℕ) (b : Base) (s : Running P)
      → ((h : ℕ) → IsSynced due s h)
      → (h : ℕ) → IsSynced due (change k (λ w. record w { base = b }) s) h
  transferred-IsSynced due k b s i =
      changed-IsSynced due k (λ w. record w { base = b }) s
        (λ started queued due j.
          same-Synced (s.wrappers k) (record (s.wrappers k) { base = b }) started queued due
            (refl, refl, refl) j)
        i
