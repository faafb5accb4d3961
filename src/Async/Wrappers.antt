-- ===== src/Async/Wrappers.antt =====
-- ASync over the wrappers of include/wrapper.hpp, one for each handle.
use curlev.Prelude.{ℕ, Bool, false, ◌==◌, if◌then◌else◌}
use curlev.Wrapper.{Wrapper, Protocol, can_reattempt, use_threaded_cb, async_cb, is_running}
use curlev.Async.{Async, Pool, abort_request}

-- The wrappers with `w` for the handle `h`.
unfoldable pub update : {P : Type 0} → ℕ → Wrapper P → (ℕ → Wrapper P) → ℕ → Wrapper P
update h w wrappers k = if k == h then w else wrappers k

-- `async_cb` catches what the user's callback throws, so it throws nothing itself.
unfoldable pub wrapper_pool : {P : Type 0} → Protocol P → (ℕ → Bool) → Pool (ℕ → Wrapper P)
unfolding update
wrapper_pool p throws = record {
  can_reattempt =
      λ h wrappers. let (w, again) = can_reattempt (wrappers h) in (update h w wrappers, again);
  use_threaded_cb = λ h wrappers. use_threaded_cb (wrappers h);
  async_cb = λ h code wrappers. (update h (async_cb p throws code (wrappers h)) wrappers, false);
}

-- Wrapper::abort
unfoldable pub abort :
    {P : Type 0}
    → Protocol P
    → (ℕ → Bool)
    → ℕ
    → Bool
    → Bool
    → Async (ℕ → Wrapper P)
    → Async (ℕ → Wrapper P)
unfolding wrapper_pool
abort p throws h removed timer_ok s =
    if is_running (s.wrappers h)
    then abort_request (wrapper_pool p throws) h removed timer_ok s
    else s
