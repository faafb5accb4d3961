-- ===== src/Async/Stopping.antt =====
-- What one turn of a forced `stop` of src/async.cpp does to the other requests.
use curlev.Prelude.{
  by_number, ℕ, zero, suc, ◌+◌, ◌-◌, ◌≤◌, Bool, true, false, ◌&&◌, ◌||◌, not, List, [], ◌∷◌, length,
  ◌==◌, ◌≡◌, refl, arith, ap, sym, ◌∙◌, Bool-cases, inl, inr, subst,
}
use curlev.Async.Sets.{mem, erase, no_dup, mem-erase, mem-insert, no_dup-erase, no_dup-insert}
use curlev.Async.{
  Async, Pool, post_to_wrapper, invoke_wrapper, timer_closed, abort_pending_request,
  curle_aborted_by_callback, abort_retrying_request, abort_started_request,
}

module _ {W : Type 0} (p : Pool W) where
  -- The callbacks of uv_close for the timers of `ks`, which run before the loop is deleted.
  unfoldable pub close_timers : List ℕ → Async W → Async W
  unfolding timer_closed
  close_timers [] s = s
  close_timers (k ∷ ks) s = close_timers ks (timer_closed p k s)

  -- The two states have the same started and closing requests, but for `k`.
  pub record Beside (k : ℕ) (s t : Async W) : Type 0 where
    pub started : (h : ℕ) → (h == k) ≡ false → mem h t.started ≡ mem h s.started
    pub closing : (h : ℕ) → (h == k) ≡ false → mem h t.closing ≡ mem h s.closing
    pub distinct : no_dup s.closing ≡ true → no_dup t.closing ≡ true

  posted-Beside :
      (k : ℕ) (code : curlev.Prelude.Int.ℤ) (s : Async W)
      → Beside k s (post_to_wrapper p k code s)
        × (mem k (post_to_wrapper p k code s).started ≡ false)
        × ((post_to_wrapper p k code s).closing ≡ s.closing)
  unfolding post_to_wrapper invoke_wrapper
  posted-Beside k code s = (
    record {
      started = λ h e. ground (arith, mem-erase h k s.started);
      closing = λ h e. ground arith;
      distinct = λ d. ground (arith, d);
    },
    ground (arith, mem-erase k k s.started),
    ground arith,
  )

  pub aborted-Beside :
      (k : ℕ) (s : Async W)
      → mem k s.attached ≡ true
      → mem k s.started ≡ true
      → mem k s.closing ≡ false
      → Beside k s (abort_pending_request p k s)
        × (mem k (abort_pending_request p k s).started
            ≡ mem k (abort_pending_request p k s).closing)
  unfolding abort_pending_request abort_retrying_request abort_started_request
  aborted-Beside k s at st cl = elim (Bool-cases (mem k s.retrying)) [
    | inl r ↦
        rw (at, r)
          (
            record {
              started = λ h e. refl;
              closing = λ h e. ground (arith, mem-insert h k s.closing);
              distinct = λ d. no_dup-insert k s.closing d;
            },
            ground (arith, mem-insert k k s.closing),
          )
    | inr r ↦
        let (b, g, c) =
          posted-Beside k curle_aborted_by_callback (record s { multi = erase k s.multi }) in
        rw (at, r)
          (
            record { started = b.started; closing = b.closing; distinct = b.distinct },
            g ∙ sym (ap (mem k) c ∙ cl),
          )
  ]

  pub closed-Beside :
      (k : ℕ) (s : Async W)
      → mem k s.attached ≡ true
      → Beside k s (timer_closed p k s)
        × (mem k (timer_closed p k s).started ≡ false)
        × (mem k (timer_closed p k s).closing ≡ false)
  unfolding timer_closed
  closed-Beside k s at =
      let s1 : Async W = record s { closing = erase k s.closing } in
      let (b, g, c) = posted-Beside k curle_aborted_by_callback s1 in
      rw (at) (
        record {
          started = b.started;
          closing = λ h e. b.closing h e ∙ ground (arith, mem-erase h k s.closing);
          distinct = λ d. b.distinct (no_dup-erase k s.closing d);
        },
        g,
        ap (mem k) c ∙ ground (arith, mem-erase k k s.closing),
      )
