-- ===== src/System/Invariant.antt =====
-- What ASync and its wrappers agree upon, through every event: src/async.cpp and
-- include/wrapper.hpp.
use curlev.Prelude.{
  ℕ, ◌+◌, Bool, true, false, ◌&&◌, ◌||◌, ◌≡◌, refl, arith, ◌==◌, ◌<◌, ◌⊎◌, ltb, if◌then◌else◌,
  Bool-cases, inl, inr,
}
use curlev.Prelude.Int.{ℤ}
use curlev.Libcurl.{Libcurl}
use curlev.Async.Sets.{mem, erase, count_of}
use curlev.Async.Lifecycle.{IsValid, rewrap-IsValid}
use curlev.Async.Events.{handle-IsValid}
use curlev.Async.Moves.{abort-IsValid}
use curlev.Async.Events as Requests
use curlev.Async.{fetch_message, deliver}
use curlev.Async.Wrappers.{wrapper_pool, update}
use curlev.Async.Wrappers as Pools
use curlev.Wrapper.{Wrapper, Protocol, is_running}
use curlev.Wrapper.Idle.{Call}
use curlev.Wrapper.Latch.{IsConfig}
use curlev.Wrapper.Start.{ProtocolLaws}
use curlev.System.{
  Running, Event, pool, configure, handle, started, configured, prepared, transferred, change,
  aborted, done, restarted, closed, delivered, stopping, is_idle,
}
use curlev.System.Wrappers.{weight}
use curlev.System.Calls.{CallLaws, prepared-IsSynced, transferred-IsSynced}
use curlev.System.Start.{started-IsValid, started-IsSynced}
use curlev.System.Events.{
  closed-IsSynced, restarted-IsSynced, stopping-IsSynced, delivered_from, configured-IsSynced,
  running_request, aborted-IsSynced,
}
use curlev.System.Notified.{IsSynced, completed-IsSynced}

-- When an event may happen: the user's calls at any time, but `abort` of a request that waits to
-- be restarted or is being closed; libcurl sends messages for handles it has; armed and closing
-- timers fire; `stop` walks the started requests.
abbrev pub Possible : {P O : Type 0} → Event O → Running P → Type 0
Possible (started h cb private_ok can_add) s = Unit
Possible (configured h c) s = IsConfig c
Possible (prepared h o) s = Unit
Possible (transferred h b) s = Unit
Possible (aborted h removed timer_ok) s = (mem h s.timers ≡ false) × (mem h s.closing ≡ false)
Possible (done h code timer_ok) s = mem h s.multi ≡ true
Possible (restarted h can_add) s = mem h s.timers ≡ true
Possible (closed h) s = mem h s.closing ≡ true
Possible delivered s = Unit
Possible (stopping h) s = (mem h s.started ≡ true) × (mem h s.closing ≡ false)

-- The callbacks that were handed over to a wrapper which was free to take them.
abbrev pub due_after : {P O : Type 0} → Event O → Running P → (ℕ → ℕ) → ℕ → ℕ
due_after (started h cb private_ok can_add) s due k =
    due k + (if k == h && is_idle (s.wrappers h).exec_state then weight cb else 0)
due_after (configured h c) s due k = due k
due_after (prepared h o) s due k = due k
due_after (transferred h b) s due k = due k
due_after (aborted h removed timer_ok) s due k = due k
due_after (done h code timer_ok) s due k = due k
due_after (restarted h can_add) s due k = due k
due_after (closed h) s due k = due k
due_after delivered s due k = due k
due_after (stopping h) s due k = due k

-- The set of started requests is sound, and every wrapper agrees with its request.
pub record IsCoherent {P : Type 0} (due : ℕ → ℕ) (s : Running P) : Type 0 where
  pub requests : IsValid s
  pub synced : (h : ℕ) → IsSynced due s h

module _ {P : Type 0} (p : Protocol P) (laws : ProtocolLaws p) (throws : ℕ → Bool) where
  either : (b : Bool) (n : ℕ) → (b || ltb 0 n) ≡ true → (b ≡ true) ⊎ (0 < n)
  either b n e = elim (Bool-cases b) [ inl t ↦ inl t | inr f ↦ inr (ground arith) ]

  aborted-IsCoherent :
      (due : ℕ → ℕ) (k : ℕ) (removed timer_ok : Bool) (s : Running P)
      → mem k s.timers ≡ false
      → mem k s.closing ≡ false
      → IsCoherent due s
      → IsCoherent due (Pools.abort p throws k removed timer_ok s)
  unfolding Pools.abort
  aborted-IsCoherent due k removed timer_ok s ti cl i =
      elim (Bool-cases (is_running (s.wrappers k))) [
        | inr e ↦ rw (e) i
        | inl e ↦
            let busy : (mem k s.started || ltb 0 (count_of k s.cb_queue)) ≡ true =
              running_request p laws throws (s.wrappers k) (mem k s.started) (count_of k s.cb_queue)
                (due k) e (i.synced k) in
            rw (e) (record {
              requests =
                  abort-IsValid (pool p throws) k removed timer_ok s i.requests
                    (either (mem k s.started) (count_of k s.cb_queue) busy) ti cl;
              synced =
                  aborted-IsSynced p laws throws due k removed timer_ok s
                    (ground (arith, (i.requests.sound k).queued)) i.synced;
            })
      ]

  configured-IsValid :
      (lib : Libcurl) (h : ℕ) (c : Call) (s : Running P)
      → IsValid s
      → IsValid (configure p lib throws h c s)
  unfolding configure
  configured-IsValid lib h c s i = rewrap-IsValid (pool p throws) _ s i

  done-IsSynced :
      (due : ℕ → ℕ) (k : ℕ) (code : ℤ) (timer_ok : Bool) (s : Running P)
      → (mem k s.attached ≡ true → mem k s.started ≡ true)
      → ((h : ℕ) → IsSynced due s h)
      → (h : ℕ) → IsSynced due (fetch_message (pool p throws) k code timer_ok s) h
  unfolding fetch_message
  done-IsSynced due k code timer_ok s st i =
      completed-IsSynced p laws throws due k code timer_ok (record s { multi = erase k s.multi }) st
        i

  pub delivered-IsSynced :
      (due : ℕ → ℕ) (s : Running P)
      → ((h : ℕ) → IsSynced due s h)
      → (h : ℕ) → IsSynced due (deliver (pool p throws) s) h
  unfolding deliver
  delivered-IsSynced due s i = delivered_from p laws throws due s.cb_queue s refl i

  changed-IsValid :
      (h : ℕ) (f : Wrapper P → Wrapper P) (s : Running P) → IsValid s → IsValid (change h f s)
  unfolding change
  changed-IsValid h f s i = rewrap-IsValid (pool p throws) _ s i

  -- Whatever the user, libcurl, libuv, the callback thread and `stop` do, the requests of ASync
  -- stay sound, and every wrapper agrees with its request.
  pub handle-IsCoherent :
      {O : Type 0} (run : O → Wrapper P → Wrapper P) (calls : CallLaws run) (lib : Libcurl)
      (e : Event O) (due : ℕ → ℕ) (s : Running P)
      → Possible e s
      → IsCoherent due s
      → IsCoherent (due_after e s due) (handle p lib throws run e s)
  unfolding handle Requests.handle
  handle-IsCoherent run calls lib (started h cb private_ok can_add) due s g i = record {
    requests =
        started-IsValid p laws lib throws due h cb private_ok can_add s i.requests (i.synced h);
    synced = started-IsSynced p laws lib throws due h cb private_ok can_add s i.synced;
  }
  handle-IsCoherent run calls lib (configured h c) due s g i = record {
    requests = configured-IsValid lib h c s i.requests;
    synced = configured-IsSynced p laws throws lib due h c s g i.synced;
  }
  handle-IsCoherent run calls lib (prepared h o) due s g i = record {
    requests = changed-IsValid h (run o) s i.requests;
    synced = prepared-IsSynced run calls due h o s i.synced;
  }
  handle-IsCoherent run calls lib (transferred h b) due s g i = record {
    requests = changed-IsValid h (λ w. record w { base = b }) s i.requests;
    synced = transferred-IsSynced due h b s i.synced;
  }
  handle-IsCoherent run calls lib (aborted h removed timer_ok) due s (ti, cl) i =
      aborted-IsCoherent due h removed timer_ok s ti cl i
  handle-IsCoherent run calls lib (done h code timer_ok) due s g i = record {
    requests = handle-IsValid (pool p throws) (Requests.done h code timer_ok) s i.requests g;
    synced = done-IsSynced due h code timer_ok s (λ a. (i.requests.sound h).polled g) i.synced;
  }
  handle-IsCoherent run calls lib (restarted h can_add) due s g i = record {
    requests = handle-IsValid (pool p throws) (Requests.restart h can_add) s i.requests g;
    synced =
        restarted-IsSynced p laws throws due h can_add s ((i.requests.sound h).armed g).0 i.synced;
  }
  handle-IsCoherent run calls lib (closed h) due s g i = record {
    requests = handle-IsValid (pool p throws) (Requests.closed h) s i.requests g;
    synced = closed-IsSynced p laws throws due h s ((i.requests.sound h).closes g).0 i.synced;
  }
  handle-IsCoherent run calls lib delivered due s g i = record {
    requests = handle-IsValid (pool p throws) Requests.delivered s i.requests tt;
    synced = delivered-IsSynced due s i.synced;
  }
  handle-IsCoherent run calls lib (stopping h) due s (st, cl) i = record {
    requests = handle-IsValid (pool p throws) (Requests.stopping h) s i.requests (st, cl);
    synced = stopping-IsSynced p laws throws due h s st i.synced;
  }
