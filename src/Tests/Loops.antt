-- ===== src/Tests/Loops.antt =====
-- The event loop, the threads and the life of an instance: src/async.cpp, src/http_json.cpp.
use curlev.Prelude.{
  List, set_at, ℕ, ◌+◌, true, false, Option, some, none, [], ◌∷◌, ◌≡◌, refl, arith,
}
use curlev.Prelude.Int.{pos}
use curlev.Async.{Async, Pool, initial}
use curlev.Async.CallbackThread.Arrivals.{Job, drain_among, Drained, drain_among-Drained}
use curlev.EventLoop.{
  Events, CurlContext, Loop, Ask, socket_ask, timer_ask, answer, answer_all, Action, SocketAction,
  Machine, uv_io_cb, poll_in, poll_out, poll_remove, cselect, multi_cb_socket, multi_cb_timer,
  watch, create_curl_context, assign, with_context, events_of,
}
use curlev.EventLoop as EventLoop
use curlev.EventLoop.Contexts.{polled_by}
use curlev.EventLoop.Turns.{asked}
use curlev.EventLoop.History.{
  unwatched, Followed, unstarted, called, needed_at, polled_as_asked, last_timer,
  uv_io_cb-last_timer,
}
use curlev.Async.Sets.{mem, no_dup}
use curlev.Async.RunMutex.{
  announced, locked, thread, Turn, move, announce, lock, Reachable, at_start, after, idle,
}
use curlev.Async.RunMutex.Exclusion.{
  both_inside, inside_beside_worker, passed_over, exclusive_turns,
}
use curlev.Instance.{Answers, start, clear}
use curlev.Instance.Steps.{stopped, Reported}
use curlev.Instance.History.{start-stopped, starts, stops, run, start-Reported_always}

abbrev all_ok : EventLoop.Answers
all_ok = record { new_ok = true; init_ok = true; assign_ok = true; start_ok = true; stop_ok = true }

-- libcurl wants to read from the socket 5.
abbrev reading : Loop
reading = (answer (socket_ask poll_in 5 all_ok) unwatched).0

abbrev wants_reading : ℕ → Option Events
wants_reading = asked (socket_ask poll_in 5 all_ok) (λ socket. none)

reading-Followed : Followed wants_reading reading
unfolding answer multi_cb_socket watch create_curl_context
reading-Followed = called (λ socket. none) (socket_ask poll_in 5 all_ok) unwatched unstarted refl

polled_as_asked_example :
    (polled_by reading 5 ≡ wants_reading 5)
    × (needed_at wants_reading reading 0 (reading.contexts 0) ≡ true)
polled_as_asked_example = polled_as_asked wants_reading reading 5 0 reading-Followed

abbrev silent : SocketAction
silent socket flags = record { asks = []; running_handles = 1; messages = [] }

abbrev deaf : Pool ℕ
deaf = record {
  can_reattempt = λ h w. (w, false);
  use_threaded_cb = λ h w. true;
  async_cb = λ h code w. (w + 1, false);
}

-- It armed a timer too.
abbrev machine : Machine ℕ
machine = record {
  uv = record reading { uv_timer = some 300 };
  stats = record { running_max = 0; running_current = 0 };
  requests = initial 0;
}

abbrev readable : Events
readable = record { readable = true; writable = false }

abbrev context : CurlContext
context = record { curl = 5; polled = some (events_of poll_in); closing = false }

uv_io_cb-last_timer_example : (uv_io_cb deaf silent 0 readable machine).uv.uv_timer ≡ none
unfolding last_timer answer multi_cb_socket watch create_curl_context assign with_context set_at
uv_io_cb-last_timer_example = uv_io_cb-last_timer deaf silent 0 context readable machine refl

-- The event loop cannot be set up.
abbrev no_loop : Answers
no_loop = record {
  init_ok = true;
  ca_ok = true;
  share_created = true;
  share_set = true;
  multi_created = true;
  multi_set = true;
  loop_created = true;
  loop_init_ok = false;
  timer_init_ok = true;
}

start-stopped_example : clear (start no_loop (stopped 2)).0 ≡ stopped 2
start-stopped_example = start-stopped 2 no_loop

start-Reported_always_example :
    Reported 2 (start no_loop (run (starts no_loop ∷ stops ∷ []) (stopped 2)))
start-Reported_always_example = start-Reported_always 2 (starts no_loop ∷ stops ∷ []) no_loop

-- Two jobs wait, and a third one comes during the first turn.
abbrev waiting : Async ℕ
waiting = record (initial 0) {
  cb_queue = (7, pos 200) ∷ (8, pos 404) ∷ [];
  nb_running_requests = 3;
}

abbrev arrivals : List (List Job)
arrivals = ((9, pos 500) ∷ []) ∷ [] ∷ [] ∷ []

drain_among-Drained_example :
    Drained deaf
      ((7, pos 200) ∷ (8, pos 404) ∷ [])
      arrivals
      waiting
      (drain_among deaf arrivals waiting)
drain_among-Drained_example = drain_among-Drained deaf arrivals waiting (omega arith) (omega arith)

abbrev first : Turn
first = record (move 1 announced idle) { nb_waiting_requests = 1 }

abbrev second : Turn
second = record (move 1 locked first) { holder = thread 1 }

-- One of two threads has locked the mutex.
second-Reachable : Reachable (1 ∷ 2 ∷ []) second
unfolding mem set_at
second-Reachable =
    after first second (after idle first at_start (announce 1 idle refl refl))
      (lock 1 first refl refl refl)

exclusive_turns_example :
    (both_inside second 1 2 ≡ false)
    × (inside_beside_worker second 1 ≡ false)
    × (passed_over second 2 ≡ false)
unfolding no_dup mem
exclusive_turns_example = exclusive_turns (1 ∷ 2 ∷ []) second 1 2 refl second-Reachable refl
