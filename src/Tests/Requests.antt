-- ===== src/Tests/Requests.antt =====
-- The requests of ASync over HTTP wrappers: src/async.cpp.
use curlev.Prelude.{codes, false, arith, ℕ, ◌+◌, true, false, [], ◌∷◌, ◌≡◌, refl, length}
use curlev.Prelude.Int.{pos}
use curlev.Wrapper.{Wrapper, can_reattempt, use_threaded_cb}
use curlev.Http.{Http, http}
use curlev.Async.Sets.{count, count_of, mem, insert, erase}
use curlev.Async.{
  Async, Pool, initial, uv_restart_cb, start_request, fetch_message, request_completed,
  abort_pending_requests, abort_pending_request, abort_started_request, abort_retrying_request,
  timer_closed, post_to_wrapper, invoke_wrapper, safe_to_restart_outcome,
}
use curlev.Async.Events.{start, done, handle}
use curlev.Async.Once.{
  Reachable, Reachable-IsValid, at_start, after, running_requests_counted, all_notified_once,
}
use curlev.Async.Race.{abort_then_start, IsLost, aborted_retry-IsLost}
use curlev.Async.Stop.{forced, forced_none_running}
use curlev.Async.Stopping.{close_timers}
use curlev.Async.Wrappers.{wrapper_pool}
use curlev.Async.Resend.{retried, resent_body_aborts}
use curlev.Transfer.{curl_cb_read, abort}
use curlev.Tests.Data.{willing, plain_text, never, object}

abbrev pool : Pool (ℕ → Wrapper Http)
pool = wrapper_pool (http willing plain_text) never

abbrev wrappers : ℕ → Wrapper Http
wrappers h = object

abbrev started : Async (ℕ → Wrapper Http)
started = handle pool (start 7 true true) (initial wrappers)

abbrev ended : Async (ℕ → Wrapper Http)
ended = handle pool (done 7 (pos 200) true) started

started_reached : Reachable pool wrappers started
unfolding mem count_of
started_reached = after (start 7 true true) (initial wrappers) at_start (refl, refl)

ended_reached : Reachable pool wrappers ended
unfolding handle start_request mem insert
ended_reached = after (done 7 (pos 200) true) started started_reached refl

running_requests_counted_example :
    started.nb_running_requests ≡ length started.started + length started.cb_queue
running_requests_counted_example = running_requests_counted pool wrappers started started_reached

all_notified_once_example : count 7 ended.accepted ≡ count_of 7 ended.notified
unfolding handle start_request fetch_message request_completed post_to_wrapper invoke_wrapper
    safe_to_restart_outcome mem insert erase wrapper_pool can_reattempt use_threaded_cb
all_notified_once_example = all_notified_once pool wrappers ended 7 ended_reached refl

aborted_retry-IsLost_example :
    ((abort_then_start pool 7 true started).timers ≡ started.timers)
    × IsLost pool 7
        (abort_then_start pool 7 true started)
        (uv_restart_cb pool 7 true (abort_then_start pool 7 true started))
aborted_retry-IsLost_example = aborted_retry-IsLost pool 7 true true started

forced_none_running_example :
    ((forced pool 1 started).nb_running_requests ≡ 0)
    × ((forced pool 1 started).cb_queue ≡ [])
    × ((h : ℕ) → mem h (forced pool 1 started).started ≡ false)
unfolding handle start_request abort_pending_requests abort_pending_request abort_started_request
    abort_retrying_request close_timers timer_closed post_to_wrapper invoke_wrapper wrapper_pool
    use_threaded_cb mem insert erase
forced_none_running_example =
    forced_none_running pool 1 started (Reachable-IsValid pool wrappers started started_reached)
      refl (omega arith)

-- Its body is sent, and it may be attempted once more.
abbrev posted : Wrapper Http
posted = record object {
  base = record (object.base) { request_body = codes "hello"; request_body_sent = 5 };
  retries_max = 1;
}

abbrev failing : Async (ℕ → Wrapper Http)
failing = record (initial (λ (h : ℕ). posted)) {
  attached = 7 ∷ [];
  started = 7 ∷ [];
  nb_running_requests = 1;
}

-- 503 is Service Unavailable.
resent_body_aborts_example :
    (mem 7 (retried (http willing plain_text) never 7 (pos 503) failing).multi ≡ true)
    × (((retried (http willing plain_text) never 7 (pos 503) failing).wrappers 7).base
        ≡ posted.base)
    × (curl_cb_read 1 16
          ((retried (http willing plain_text) never 7 (pos 503) failing).wrappers 7).base
        ≡ (((retried (http willing plain_text) never 7 (pos 503) failing).wrappers 7).base, abort))
unfolding mem safe_to_restart_outcome
resent_body_aborts_example =
    resent_body_aborts (http willing plain_text) never 7 1 16 (pos 503) failing refl refl refl
      (omega arith) refl
