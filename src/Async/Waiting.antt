-- ===== src/Async/Waiting.antt =====
-- `wait_pending_requests` of src/async.cpp.
use curlev.Prelude.{
  ℕ, zero, suc, ◌/◌, Bool, true, false, List, [], ◌∷◌, ◌==◌, ◌≡◌, refl, arith, if◌then◌else◌, take,
}
use curlev.Async.{wait_loop, wait_pending_requests}

-- One of the numbers is 0.
pub any_zero : List ℕ → Bool
any_zero [] = false
any_zero (n ∷ ns) = if n == 0 then true else any_zero ns

wait_loop-any_zero :
    (attempts : ℕ) (ns : List ℕ) → wait_loop attempts ns ≡ any_zero (take attempts ns)
unfolding wait_loop any_zero
wait_loop-any_zero zero ns = refl
wait_loop-any_zero (suc attempts) [] = refl
wait_loop-any_zero (suc attempts) (n ∷ ns) = ground (arith, wait_loop-any_zero attempts ns)

-- The wait succeeds exactly if one of the reads of its attempts, one for each 10 ms of the timeout,
-- finds that no request is running; a timeout under 10 ms makes no attempt.
pub wait-any_zero :
    (timeout_ms : ℕ) (running : List ℕ)
    → wait_pending_requests timeout_ms running ≡ any_zero (take (timeout_ms / 10) running)
unfolding wait_pending_requests
wait-any_zero timeout_ms running = wait_loop-any_zero (timeout_ms / 10) running
