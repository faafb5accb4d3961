-- ===== src/Wrapper/Retry.antt =====
-- `can_reattempt` of include/wrapper.hpp: how often a request is started again.
use curlev.Prelude.{ℕ, zero, suc, ◌+◌, ◌<◌, ◌%◌, ◌^◌, min, ◌≡◌, arith, if◌then◌else◌}
use curlev.Wrapper.{Wrapper, can_reattempt}

-- Of `n` failures in a row, how many lead to another attempt.
pub reattempts : {P : Type 0} → ℕ → Wrapper P → ℕ
reattempts zero w = 0
reattempts (suc n) w =
    let (w', again) = can_reattempt w in (if again then 1 else 0) + reattempts n w'

reattempts_from :
    {P : Type 0} (n : ℕ) (w : Wrapper P)
    → w.request_retries + n < 2 ^ 32
    → reattempts n w + min w.request_retries w.retries_max
      ≡ min (w.request_retries + n) w.retries_max
unfolding reattempts can_reattempt
reattempts_from zero w h = omega arith
reattempts_from (suc n) w h =
    ground
      (arith, reattempts_from n (record w { request_retries = (w.request_retries + 1) % 2 ^ 32 }))

-- Asked after each of fewer than 2^32 failures in a row, from a count of 0, `can_reattempt` allows
-- another attempt exactly as often as the user's maximum says, or each time if there are fewer
-- failures than that.
pub reattempts_bounded :
    {P : Type 0} (n : ℕ) (w : Wrapper P)
    → w.request_retries ≡ 0
    → n < 2 ^ 32
    → reattempts n w ≡ min n w.retries_max
reattempts_bounded n w z h = omega (arith, reattempts_from n w)
