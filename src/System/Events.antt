-- ===== src/System/Events.antt =====
-- Event by event, each wrapper agrees with its request: src/async.cpp and
-- include/wrapper.hpp.
use curlev.Prelude.{
  ℕ, ◌+◌, Bool, true, false, ◌&&◌, ◌||◌, not, List, [], ◌∷◌, ◌≡◌, refl, arith, ◌==◌, ltb,
  if◌then◌else◌, subst, ap, sym, ◌∙◌, Bool-cases, inl, inr,
}
use curlev.Prelude.Int.{ℤ}
use curlev.Libcurl.{Libcurl}
use curlev.Async.Sets.{mem, erase, count_of}
use curlev.Async.{
  abort_request, repost, uv_restart_cb, deliver_next, timer_closed, abort_pending_request,
  abort_retrying_request, abort_started_request, curle_aborted_by_callback,
}
use curlev.Async.Wrappers.{wrapper_pool}
use curlev.Wrapper.{Wrapper, State, Protocol, is_running}
use curlev.Wrapper.Idle.{Call, perform}
use curlev.Wrapper.Latch.{IsConfig}
use curlev.Wrapper.Start.{ProtocolLaws}
use curlev.System.{Running, configure, is_idle}
use curlev.System.Wrappers.{
  Synced, state_of, same-Synced, configured-SameCalls, update_here, update_there,
}
use curlev.System.Notified.{
  IsSynced, at_handle, invoked-IsSynced, posted-IsSynced, completed-IsSynced,
}

module _ {P : Type 0} (p : Protocol P) (laws : ProtocolLaws p) (throws : ℕ → Bool) where
  pub closed-IsSynced :
      (due : ℕ → ℕ) (k : ℕ) (s : Running P)
      → mem k s.started ≡ true
      → ((h : ℕ) → IsSynced due s h)
      → (h : ℕ) → IsSynced due (timer_closed (wrapper_pool p throws) k s) h
  unfolding timer_closed
  closed-IsSynced due k s st i = elim (Bool-cases (mem k s.attached)) [
    | inl e ↦
        rw (e)
          (posted-IsSynced p laws throws due k _ (record s { closing = erase k s.closing }) st i)
    | inr e ↦ rw e i
  ]

  pub restarted-IsSynced :
      (due : ℕ → ℕ) (k : ℕ) (can_add : Bool) (s : Running P)
      → mem k s.started ≡ true
      → ((h : ℕ) → IsSynced due s h)
      → (h : ℕ) → IsSynced due (uv_restart_cb (wrapper_pool p throws) k can_add s) h
  unfolding uv_restart_cb repost
  restarted-IsSynced due k can_add s st i =
      let s1 : Running P = record s { timers = erase k s.timers; retrying = erase k s.retrying } in
      elim (Bool-cases (mem k s.attached)) [
        | inl e ↦ elim (Bool-cases (can_add && not (mem k s.multi))) [
          | inl a ↦ rw (e, a) i
          | inr a ↦ rw (e, a) (posted-IsSynced p laws throws due k _ s1 st i)
        ]
        | inr e ↦ rw e i
      ]

  pub stopping-IsSynced :
      (due : ℕ → ℕ) (k : ℕ) (s : Running P)
      → mem k s.started ≡ true
      → ((h : ℕ) → IsSynced due s h)
      → (h : ℕ) → IsSynced due (abort_pending_request (wrapper_pool p throws) k s) h
  unfolding abort_pending_request abort_retrying_request abort_started_request
  stopping-IsSynced due k s st i = elim (Bool-cases (mem k s.attached)) [
    | inl e ↦ elim (Bool-cases (mem k s.retrying)) [
      | inl a ↦ rw (e, a) i
      | inr a ↦
          rw (e, a)
            (posted-IsSynced p laws throws due k _ (record s { multi = erase k s.multi }) st i)
    ]
    | inr e ↦ rw e i
  ]

  pub delivered_from :
      (due : ℕ → ℕ) (js : List (ℕ × ℤ)) (s : Running P)
      → s.cb_queue ≡ js
      → ((h : ℕ) → IsSynced due s h)
      → (h : ℕ) → IsSynced due (deliver_next (wrapper_pool p throws) js s) h
  unfolding count_of
  delivered_from due [] s e i = i
  delivered_from due ((k, code) ∷ js) s e i =
      let c : (h : ℕ) → count_of h s.cb_queue ≡ (if h == k then 1 else 0) + count_of h js =
        λ h. ap (count_of h) e in
      invoked-IsSynced p laws throws due k code s (record s { cb_queue = js }) refl
        (ground (arith, c k, (i k).slots)) (ground (arith, c k, (i k).slots))
        (λ h d. (refl, refl, ground (arith, c h))) (ground (arith, c k)) i

  pub configured-IsSynced :
      (lib : Libcurl) (due : ℕ → ℕ) (k : ℕ) (c : Call) (s : Running P)
      → IsConfig c
      → ((h : ℕ) → IsSynced due s h)
      → (h : ℕ) → IsSynced due (configure p lib throws k c s) h
  unfolding configure
  configured-IsSynced lib due k c s g i =
      let w = perform p lib throws c (s.wrappers k) in
      at_handle due k s (configure p lib throws k c s)
        (λ h e. (update_there k h w s.wrappers e, refl, refl))
        (subst (λ x. Synced x (mem k s.started) (count_of k s.cb_queue) (due k))
          (sym (update_here k w s.wrappers))
          (same-Synced (s.wrappers k) w (mem k s.started) (count_of k s.cb_queue) (due k)
            (configured-SameCalls p lib throws c (s.wrappers k) g) (i k)))
        i

  is_running_state : (w : Wrapper P) → is_running w ≡ true → w.exec_state ≡ State.running
  unfolding is_running
  is_running_state w e = go w.exec_state e
    where
      go : (s : State) → elim s [ State.running ↦ true | _ ↦ false ] ≡ true → s ≡ State.running
      go State.idle h = cc
      go State.running h = refl
      go State.finished h = cc

  -- A running wrapper has a request that is started, or that waits to be notified.
  pub running_request :
      (w : Wrapper P) (started : Bool) (n due : ℕ)
      → is_running w ≡ true
      → Synced w started n due
      → (started || ltb 0 n) ≡ true
  running_request w started n due e i = elim (Bool-cases (started || ltb 0 n)) [
    | inl t ↦ t
    | inr f ↦ ground (arith, ap is_idle (sym (i.state ∙ ap state_of f) ∙ is_running_state w e))
  ]

  pub aborted-IsSynced :
      (due : ℕ → ℕ) (k : ℕ) (removed timer_ok : Bool) (s : Running P)
      → (mem k s.attached ≡ true → mem k s.started ≡ true)
      → ((h : ℕ) → IsSynced due s h)
      → (h : ℕ) → IsSynced due (abort_request (wrapper_pool p throws) k removed timer_ok s) h
  unfolding abort_request
  aborted-IsSynced due k false timer_ok s st i = i
  aborted-IsSynced due k true timer_ok s st i =
      completed-IsSynced p laws throws due k curle_aborted_by_callback timer_ok
        (record s { multi = erase k s.multi }) st i
