-- ===== src/Async/Resend.antt =====
-- A request that is started again: `request_completed` and `uv_restart_cb` of src/async.cpp, over
-- the wrappers of include/wrapper.hpp.
use curlev.Prelude.{ℕ, ◌<◌, Bool, true, false, ltb, ◌≡◌, refl, arith, length, ap, ◌∙◌, sym, subst}
use curlev.Prelude.Int.{ℤ}
use curlev.Transfer.{abort, curl_cb_read}
use curlev.Wrapper.{Wrapper, Protocol, can_reattempt}
use curlev.Async.Sets.{mem, insert, mem-insert}
use curlev.Async.{Async, request_completed, uv_restart_cb, repost, safe_to_restart_outcome}
use curlev.Async.Wrappers.{wrapper_pool, update}

module _ {P : Type 0} (p : Protocol P) (throws : ℕ → Bool) where
  -- The transfer fails with `code`, and its retry timer fires.
  pub retried : ℕ → ℤ → Async (ℕ → Wrapper P) → Async (ℕ → Wrapper P)
  retried h code s =
      uv_restart_cb (wrapper_pool p throws) h true
        (request_completed (wrapper_pool p throws) h code true s)

  -- The state in which the request waits for its timer.
  waiting : ℕ → Async (ℕ → Wrapper P) → Async (ℕ → Wrapper P)
  waiting h s = record s {
    wrappers = update h (can_reattempt (s.wrappers h)).0 s.wrappers;
    retrying = insert h s.retrying;
    timers = insert h s.timers;
  }

  completed-waiting :
      (h : ℕ) (code : ℤ) (s : Async (ℕ → Wrapper P))
      → mem h s.attached ≡ true
      → safe_to_restart_outcome code ≡ true
      → ltb (s.wrappers h).request_retries (s.wrappers h).retries_max ≡ true
      → request_completed (wrapper_pool p throws) h code true s ≡ waiting h s
  unfolding request_completed wrapper_pool can_reattempt waiting
  completed-waiting h code s a sa re = rw (a, sa, re) refl

  restarted :
      (h : ℕ) (s : Async (ℕ → Wrapper P))
      → mem h s.attached ≡ true
      → mem h s.multi ≡ false
      → (mem h (uv_restart_cb (wrapper_pool p throws) h true s).multi ≡ true)
        × ((uv_restart_cb (wrapper_pool p throws) h true s).wrappers ≡ s.wrappers)
  unfolding uv_restart_cb repost
  restarted h s a mu = rw (a, mu) (ground (arith, mem-insert h h s.multi), refl)

  waiting-base :
      (h : ℕ) (s : Async (ℕ → Wrapper P)) → ((waiting h s).wrappers h).base ≡ (s.wrappers h).base
  unfolding waiting update can_reattempt
  waiting-base h s = ground arith

  retried-base :
      (h : ℕ) (code : ℤ) (s : Async (ℕ → Wrapper P))
      → mem h s.attached ≡ true
      → mem h s.multi ≡ false
      → safe_to_restart_outcome code ≡ true
      → (s.wrappers h).request_retries < (s.wrappers h).retries_max
      → (mem h (retried h code s).multi ≡ true)
        × (((retried h code s).wrappers h).base ≡ (s.wrappers h).base)
  unfolding retried waiting
  retried-base h code s a mu sa re =
      let q = completed-waiting h code s a sa (ground arith) in
      let (m, w) = restarted h (waiting h s) a mu in
      (
        ap (λ u. mem h (uv_restart_cb (wrapper_pool p throws) h true u).multi) q ∙ m,
        ap (λ u. ((uv_restart_cb (wrapper_pool p throws) h true u).wrappers h).base) q
            ∙ (ap (λ f. (f h).base) w ∙ waiting-base h s),
      )

  -- If a request fails with a code that is safe for a restart once its body has been sent, and may
  -- be attempted again, libcurl has it again when the timer fires, but the wrapper's data is that
  -- of the first attempt: what was received stays, and the next read of the body aborts the
  -- transfer, if no seek comes before it.
  pub resent_body_aborts :
      (h size nmemb : ℕ) (code : ℤ) (s : Async (ℕ → Wrapper P))
      → mem h s.attached ≡ true
      → mem h s.multi ≡ false
      → safe_to_restart_outcome code ≡ true
      → (s.wrappers h).request_retries < (s.wrappers h).retries_max
      → (s.wrappers h).base.request_body_sent ≡ length (s.wrappers h).base.request_body
      → (mem h (retried h code s).multi ≡ true)
        × (((retried h code s).wrappers h).base ≡ (s.wrappers h).base)
        × (curl_cb_read size nmemb ((retried h code s).wrappers h).base
            ≡ (((retried h code s).wrappers h).base, abort))
  unfolding curl_cb_read
  resent_body_aborts h size nmemb code s a mu sa re all_sent =
      let (m, w) = retried-base h code s a mu sa re in
      (m, w, subst (λ b. curl_cb_read size nmemb b ≡ (b, abort)) (sym w) (ground arith))
