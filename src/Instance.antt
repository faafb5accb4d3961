-- ===== src/Instance.antt =====
-- ASync::start and ASync::stop of src/async.cpp: what an instance of ASync holds of libcurl, of libuv
-- and of the system. The answers of these are arguments.
pub mod Steps
pub mod History
use curlev.Prelude.{ℕ, ◌+◌, Bool, true, false, ◌&&◌, ◌||◌, not, List, if◌then◌else◌}
use curlev.Async.{Async, Pool, wait_pending_requests, abort_pending_requests}
use curlev.Async.Global.{Global, global_init, global_clear}

-- Whether m_share_handle, m_multi_handle, m_uv_loop and the data of m_uv_timer are not null, whether
-- the threads run, and m_uv_running and m_cb_running. `lost`: the handles of libcurl that were
-- overwritten, a part that is no member.
pub record Instance : Type 0 where
  pub global : Global
  pub share_handle : Bool
  pub multi_handle : Bool
  pub uv_loop : Bool
  pub uv_timer : Bool
  pub uv_running : Bool
  pub uv_worker : Bool
  pub cb_running : Bool
  pub cb_worker : Bool
  pub lost : ℕ

-- `created`: the handle is not null; `set`: all its options could be set.
pub record Answers : Type 0 where
  pub init_ok : Bool
  pub ca_ok : Bool
  pub share_created : Bool
  pub share_set : Bool
  pub multi_created : Bool
  pub multi_set : Bool
  pub loop_created : Bool
  pub loop_init_ok : Bool
  pub timer_init_ok : Bool

-- A handle that is assigned to while it holds another one.
abbrev lost_if : Bool → ℕ → ℕ
lost_if held n = if held then n + 1 else n

unfoldable pub share_init : Answers → Instance → Instance × Bool
share_init a s =
    let ok = a.share_created && a.share_set in
    (record s { share_handle = ok; lost = lost_if s.share_handle s.lost }, ok)

unfoldable pub share_clear : Instance → Instance
share_clear s = record s { share_handle = false }

unfoldable pub multi_init : Answers → Instance → Instance × Bool
multi_init a s =
    let ok = a.multi_created && a.multi_set in
    (record s { multi_handle = ok; lost = lost_if s.multi_handle s.lost }, ok)

unfoldable pub multi_clear : Instance → Instance
multi_clear s = record s { multi_handle = false }

-- On failure, `uv_clear_loop` deletes the loop, also one that was there.
unfoldable pub uv_init : Answers → Instance → Instance × Bool
uv_init a s =
    let ok = not s.uv_loop && (a.loop_created && (a.loop_init_ok && a.timer_init_ok)) in
    if ok
    then (record s { uv_loop = true; uv_timer = true; uv_running = true; uv_worker = true }, true)
    else (record s { uv_loop = false }, false)

-- The worker is joined; the timer is stopped and the loop is run until it is empty, then deleted.
unfoldable pub uv_clear : Instance → Instance
uv_clear s = record s { uv_running = false; uv_worker = false; uv_timer = false; uv_loop = false }

unfoldable pub cb_init : Instance → Instance × Bool
cb_init s = (record s { cb_running = true; cb_worker = true }, true)

unfoldable pub cb_clear : Instance → Instance
cb_clear s = record s { cb_running = false; cb_worker = false }

unfoldable pub global_start : Answers → Instance → Instance × Bool
unfolding global_init
global_start a s =
    let (g, ok) = global_init a.init_ok a.ca_ok s.global in (record s { global = g }, ok)

-- `ok = ok && f()`
abbrev pub then_try : Instance × Bool → (Instance → Instance × Bool) → Instance × Bool
then_try (s, true) f = f s
then_try (s, false) f = (s, false)

-- `start`, but for the defaults.
unfoldable pub start : Answers → Instance → Instance × Bool
unfolding global_start share_init multi_init uv_init cb_init
start a s =
    if s.uv_running
    then (s, true)
    else then_try
        (then_try (then_try (then_try (global_start a s) (share_init a)) (multi_init a))
          (uv_init a))
        cb_init

-- The end of `stop`.
unfoldable pub clear : Instance → Instance
unfolding uv_clear cb_clear share_clear multi_clear global_clear
clear s =
    let s1 = multi_clear (share_clear (cb_clear (uv_clear s))) in
    record s1 { global = global_clear s1.global }

-- An instance and its requests.
pub record Whole (W : Type 0) : Type 0 where
  pub instance_state : Instance
  pub requests : Async W

-- `running`: what the first wait reads, as in `wait_loop`; the result of the second is not used.
-- The result tells whether stopping was forced.
unfoldable pub stop : {W : Type 0} → Pool W → ℕ → List ℕ → Whole W → Whole W × Bool
unfolding wait_pending_requests abort_pending_requests clear
stop p timeout_ms running s =
    let forced = not (wait_pending_requests timeout_ms running) in
    (
      record {
        instance_state = clear s.instance_state;
        requests = if forced then abort_pending_requests p s.requests else s.requests;
      },
      forced,
    )
