-- ===== src/Async.antt =====
-- include/async.hpp and src/async.cpp: the requests that ASync runs. An easy handle is a number, and
-- stands for the wrapper that owns it too. What a mutex guards is one step, and the answers of
-- libcurl and libuv are arguments. A call of start_request is one step, with the count that it takes
-- before the lock, and so is a notification, with the callback of the user. The count of running
-- requests is a natural number: where a decrement meets 0, the code's count is negative.
pub mod Sets
pub mod Lifecycle
pub mod Moves
pub mod Timers
pub mod Events
pub mod Once
pub mod Race
pub mod Global
pub mod Wrappers
pub mod Resend
pub mod Waiting
pub mod CallbackThread
pub mod Stopping
pub mod Stop
pub mod ShareLocks
pub mod RunMutex
use curlev.Prelude.{
  ℕ, zero, suc, ◌+◌, ◌-◌, ◌/◌, Bool, true, false, ◌&&◌, ◌||◌, not, Option, none, some, List, [],
  ◌∷◌, ◌++◌, ◌==◌, ltb, leb, if◌then◌else◌,
}
use curlev.Prelude.Int.{ℤ, pos, negsuc}
use curlev.Wrapper.Codes.{error_internal_restart}
use Sets.{mem, insert, erase}

-- What ASync asks of the wrappers, by handle. `async_cb` tells whether it threw.
pub record Pool (W : Type 0) : Type 0 where
  pub can_reattempt : ℕ → W → W × Bool
  pub use_threaded_cb : ℕ → W → Bool
  pub async_cb : ℕ → ℤ → W → W × Bool

-- The members that belong to requests, with libcurl's and libuv's part of the state: the handles
-- in the multi handle, those with CURLOPT_PRIVATE set, the armed retry timers, and the timers that
-- abort_retrying_request closes. The last two are no members: the requests that ASync accepted
-- and the calls of `async_cb`, newest first.
pub record Async (W : Type 0) : Type 0 where
  pub wrappers : W
  pub multi : List ℕ
  pub attached : List ℕ
  pub timers : List ℕ
  pub closing : List ℕ
  pub started : List ℕ
  pub retrying : List ℕ
  pub cb_queue : List (ℕ × ℤ)
  pub nb_running_requests : ℕ
  pub protocol_has_crashed : Bool
  pub accepted : List ℕ
  pub notified : List (ℕ × ℤ)

abbrev pub initial : {W : Type 0} → W → Async W
initial wrappers = record {
  wrappers = wrappers;
  multi = [];
  attached = [];
  timers = [];
  closing = [];
  started = [];
  retrying = [];
  cb_queue = [];
  nb_running_requests = 0;
  protocol_has_crashed = false;
  accepted = [];
  notified = [];
}

-- CURLE_COULDNT_RESOLVE_PROXY, …_HOST, COULDNT_CONNECT, SSL_CONNECT_ERROR, PEER_FAILED_VERIFICATION
-- and the two HTTP codes.
unfoldable pub safe_to_restart_outcome : ℤ → Bool
safe_to_restart_outcome (pos n) =
    n == 6 || (n == 5 || (n == 7 || (n == 35 || (n == 60 || (n == 429 || n == 503)))))
safe_to_restart_outcome (negsuc n) = false

abbrev pub curle_aborted_by_callback : ℤ
curle_aborted_by_callback = pos 42

-- The result of the transfer, and what curl_easy_getinfo gave: an error, or the protocol's code.
unfoldable pub outcome_code : ℕ → ℕ → ℤ → ℤ
outcome_code result info_error response =
    if result == 0 then (if info_error == 0 then response else pos info_error) else pos result

-- The loop of `wait_pending_requests`: the numbers of running requests that it reads, one at each
-- attempt.
unfoldable pub wait_loop : ℕ → List ℕ → Bool
wait_loop zero ns = false
wait_loop (suc attempts) [] = false
wait_loop (suc attempts) (n ∷ ns) =
    let rest = wait_loop attempts ns in if n == 0 then true else rest

-- An attempt lasts c_short_wait_ms.
unfoldable pub wait_pending_requests : ℕ → List ℕ → Bool
unfolding wait_loop
wait_pending_requests timeout_ms running = wait_loop (timeout_ms / 10) running

-- m_multi_running_max and m_multi_running_current
pub record Stats : Type 0 where
  pub running_max : ℕ
  pub running_current : ℕ

unfoldable pub multi_update_running_stats : ℕ → Stats → Stats
multi_update_running_stats running_handles s = record {
  running_max = if ltb s.running_max running_handles then running_handles else s.running_max;
  running_current = running_handles;
}

module _ {W : Type 0} (p : Pool W) where
  unfoldable pub invoke_wrapper : ℕ → ℤ → Async W → Async W
  invoke_wrapper h code s =
      let (w, threw) = p.async_cb h code s.wrappers in
      record s {
        wrappers = w;
        protocol_has_crashed = s.protocol_has_crashed || threw;
        nb_running_requests = s.nb_running_requests - 1;
        notified = (h, code) ∷ s.notified;
      }

  unfoldable pub post_to_wrapper : ℕ → ℤ → Async W → Async W
  unfolding invoke_wrapper
  post_to_wrapper h code s =
      let s1 = record s {
        started = erase h s.started;
        retrying = erase h s.retrying;
        attached = erase h s.attached;
      } in
      if p.use_threaded_cb h s.wrappers
      then record s1 { cb_queue = s.cb_queue ++ ((h, code) ∷ []) }
      else invoke_wrapper h code s1

  -- `timer_ok`: uv_timer_init and uv_timer_start succeed.
  unfoldable pub request_completed : ℕ → ℤ → Bool → Async W → Async W
  unfolding safe_to_restart_outcome post_to_wrapper
  request_completed h code timer_ok s =
      if mem h s.attached
      then (let (w, again) = p.can_reattempt h s.wrappers in
          let s1 = record s { wrappers = w } in
          if again && (safe_to_restart_outcome code && timer_ok)
          then record s1 { retrying = insert h s.retrying; timers = insert h s.timers }
          else post_to_wrapper h code s1)
      else s

  -- `can_add`: libcurl has what it takes to add a handle; it refuses one that it has already.
  -- CURLOPT_PRIVATE stays set when the handle is not added.
  unfoldable pub start_request : ℕ → Bool → Bool → Async W → Async W × Bool
  start_request h private_ok can_add s =
      if private_ok
      then (let s1 = record s { attached = insert h s.attached } in
          if can_add && not (mem h s.multi)
          then (
            record s1 {
              multi = insert h s.multi;
              started = insert h s.started;
              nb_running_requests = s.nb_running_requests + 1;
              accepted = h ∷ s.accepted;
            },
            true,
          )
          else (s1, false))
      else (s, false)

  -- `removed`: curl_multi_remove_handle succeeds.
  unfoldable pub abort_request : ℕ → Bool → Bool → Async W → Async W
  unfolding request_completed
  abort_request h removed timer_ok s =
      if removed
      then request_completed h curle_aborted_by_callback timer_ok
          (record s { multi = erase h s.multi })
      else s

  -- The body of the loop of `multi_fetch_messages`, at a message CURLMSG_DONE.
  unfoldable pub fetch_message : ℕ → ℤ → Bool → Async W → Async W
  unfolding request_completed
  fetch_message h code timer_ok s =
      request_completed h code timer_ok (record s { multi = erase h s.multi })

  unfoldable pub multi_fetch_messages : List (ℕ × ℤ × Bool) → Async W → Async W
  unfolding fetch_message
  multi_fetch_messages [] s = s
  multi_fetch_messages ((h, code, timer_ok) ∷ ms) s =
      multi_fetch_messages ms (fetch_message h code timer_ok s)

  -- The end of the callback of `uv_restart_cb`.
  unfoldable pub repost : ℕ → Bool → Async W → Async W
  unfolding post_to_wrapper
  repost h can_add s =
      if mem h s.attached
      then (if can_add && not (mem h s.multi)
          then record s { multi = insert h s.multi }
          else post_to_wrapper h error_internal_restart s)
      else s

  -- `uv_restart_cb` and the callback that it gives to uv_close, which run in one uv_run.
  unfoldable pub uv_restart_cb : ℕ → Bool → Async W → Async W
  unfolding repost
  uv_restart_cb h can_add s =
      repost h can_add (record s { timers = erase h s.timers; retrying = erase h s.retrying })

  abbrev pub deliver_next : List (ℕ × ℤ) → Async W → Async W
  deliver_next [] s = s
  deliver_next ((h, code) ∷ js) s = invoke_wrapper h code (record s { cb_queue = js })

  -- One turn of the inner loop of the callback thread, which alone takes from the queue: it takes a
  -- job with the mutex locked and invokes the wrapper with the mutex unlocked.
  unfoldable pub deliver : Async W → Async W
  unfolding invoke_wrapper
  deliver s = deliver_next s.cb_queue s

  -- Stops the timer and closes it; the callback of uv_close is `timer_closed`.
  unfoldable pub abort_retrying_request : ℕ → Async W → Async W
  abort_retrying_request h s = record s { timers = erase h s.timers; closing = insert h s.closing }

  unfoldable pub timer_closed : ℕ → Async W → Async W
  unfolding post_to_wrapper
  timer_closed h s =
      let s1 = record s { closing = erase h s.closing } in
      if mem h s.attached then post_to_wrapper h curle_aborted_by_callback s1 else s1

  unfoldable pub abort_started_request : ℕ → Async W → Async W
  unfolding post_to_wrapper
  abort_started_request h s =
      post_to_wrapper h curle_aborted_by_callback (record s { multi = erase h s.multi })

  -- The body of the loop of `abort_pending_requests`.
  unfoldable pub abort_pending_request : ℕ → Async W → Async W
  unfolding abort_retrying_request abort_started_request
  abort_pending_request h s =
      if mem h s.attached
      then (if mem h s.retrying
          then abort_retrying_request h (record s { retrying = erase h s.retrying })
          else abort_started_request h s)
      else s

  pub abort_pending_loop : List ℕ → Async W → Async W
  unfolding abort_pending_request
  abort_pending_loop [] s = s
  abort_pending_loop (h ∷ hs) s = abort_pending_loop hs (abort_pending_request h s)

  -- The loop walks a copy of the set of started requests.
  unfoldable pub abort_pending_requests : Async W → Async W
  unfolding abort_pending_loop
  abort_pending_requests s = abort_pending_loop s.started s
