-- ===== src/System/Stop.antt =====
-- A forced `stop` of ASync, for the wrappers: src/async.cpp and include/wrapper.hpp.
use curlev.Prelude.{ℕ, ◌≤◌, Bool, [], ◌≡◌, ap, subst, length}
use curlev.Libcurl.{Libcurl}
use curlev.Async.Sets.{count_of}
use curlev.Async.Stop.{Keeps, closed_all, forced, forced-ends}
use curlev.System.Calls.{CallLaws}
use curlev.Wrapper.{Wrapper, State, Protocol}
use curlev.Wrapper.Start.{ProtocolLaws}
use curlev.System.{Running, pool}
use curlev.System.Wrappers.{Synced}
use curlev.System.Notified.{IsSynced}
use curlev.System.Events.{closed-IsSynced, stopping-IsSynced}
use curlev.System.Invariant.{delivered-IsSynced}
use curlev.System.Quiet.{Reached, Reached-IsCoherent, nothing_owed}

module _ {P O : Type 0} (p : Protocol P) (laws : ProtocolLaws p) (run : O → Wrapper P → Wrapper P)
    (calls : CallLaws run) (lib : Libcurl) (throws : ℕ → Bool) where
  IsSynced-Keeps : (due : ℕ → ℕ) → Keeps (pool p throws) (λ s. (h : ℕ) → IsSynced due s h)
  IsSynced-Keeps due = record {
    stopping = λ k s i st cl q. stopping-IsSynced p laws throws due k s st q;
    closed = λ k s i cl q. closed-IsSynced p laws throws due k s ((i.sound k).closes cl).0 q;
    delivered = λ s i q. delivered-IsSynced p laws throws due s q;
  }

  -- A forced `stop` ends the requests of all wrappers.
  pub forced_called :
      (due : ℕ → ℕ) (s : Running P) (turns h : ℕ)
      → Reached p laws run calls lib throws due s
      → s.closing ≡ []
      → length (closed_all (pool p throws) s).cb_queue ≤ turns
      → let w = (forced (pool p throws) turns s).wrappers h in
        (w.exec_state ≡ State.idle) × (length w.called ≡ due h)
  unfolding count_of
  forced_called due s turns h r none l =
      let i = Reached-IsCoherent p laws run calls lib throws due s r in
      let (q, nb, queue, gone) =
        forced-ends (pool p throws) (λ s. (h : ℕ) → IsSynced due s h) (IsSynced-Keeps due) turns s
          i.requests i.synced none l in
      let t : Running P = forced (pool p throws) turns s in
      nothing_owed p laws run calls lib throws (t.wrappers h) (count_of h t.cb_queue) (due h)
        (ap (count_of h) queue)
        (subst (λ b. Synced (t.wrappers h) b (count_of h t.cb_queue) (due h)) (gone h) (q h))
