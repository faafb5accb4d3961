-- ===== src/EventLoop.antt =====
-- src/async.cpp: what ASync tells libuv when libcurl asks for sockets and for its timer, and what it
-- tells libcurl when libuv fires. libuv's and libcurl's parts of the state stand with ASync's, and
-- their answers are arguments.
pub mod Contexts
pub mod Follows
pub mod Handlers
pub mod Turns
pub mod History
use curlev.Prelude.{
  set_at, ℕ, ◌+◌, Bool, true, false, ◌&&◌, not, Option, none, some, List, [], ◌∷◌, ◌==◌,
  if◌then◌else◌,
}
use curlev.Prelude.Int.{ℤ, pos, negsuc}
use curlev.Async.{Async, Pool, Stats, multi_update_running_stats, multi_fetch_messages}

-- UV_READABLE and UV_WRITABLE.
pub record Events : Type 0 where
  pub readable : Bool
  pub writable : Bool

-- CURL_POLL_IN, _OUT, _INOUT, _REMOVE, and any other number.
pub data What : Type 0 where
  poll_in : What
  poll_out : What
  poll_inout : What
  poll_remove : What
  poll_other : What

-- A curl_context: its socket, what its uv_poll_t waits for, and whether uv_close was called on that.
pub record CurlContext : Type 0 where
  pub curl : ℕ
  pub polled : Option Events
  pub closing : Bool

-- The contexts by address, of which `allocated` were created so far; what curl_multi_assign attached
-- to the sockets; the timeout of m_uv_timer, if it is armed.
pub record Loop : Type 0 where
  pub contexts : ℕ → Option CurlContext
  pub allocated : ℕ
  pub assigned : ℕ → Option ℕ
  pub uv_timer : Option ℕ

-- What the allocation, uv_poll_init_socket, curl_multi_assign, uv_poll_start and uv_poll_stop answer.
pub record Answers : Type 0 where
  pub new_ok : Bool
  pub init_ok : Bool
  pub assign_ok : Bool
  pub start_ok : Bool
  pub stop_ok : Bool

abbrev pub poll : Option Events → CurlContext → CurlContext
poll e x = record x { polled = e }

-- uv_close of the context's uv_poll_t, which stops it.
abbrev pub close : CurlContext → CurlContext
close x = record x { polled = none; closing = true }

abbrev pub change : (CurlContext → CurlContext) → Option CurlContext → Option CurlContext
change f none = none
change f (some x) = some (f x)

unfoldable pub with_context : ℕ → (CurlContext → CurlContext) → Loop → Loop
unfolding set_at
with_context c f s = record s { contexts = set_at c (change f (s.contexts c)) s.contexts }

unfoldable pub assign : ℕ → Option ℕ → Loop → Loop
unfolding set_at
assign socket c s = record s { assigned = set_at socket c s.assigned }

-- A context whose uv_poll_init_socket fails is deleted at once.
unfoldable pub create_curl_context : ℕ → Answers → Loop → Loop × Option ℕ
unfolding set_at
create_curl_context socket a s =
    if a.new_ok && a.init_ok
    then (
      record s {
        contexts =
            set_at s.allocated (some (record { curl = socket; polled = none; closing = false }))
              s.contexts;
        allocated = s.allocated + 1;
      },
      some s.allocated,
    )
    else (s, none)

unfoldable pub destroy_curl_context : Option ℕ → Loop → Loop
unfolding with_context
destroy_curl_context none s = s
destroy_curl_context (some c) s = with_context c close s

-- The callback of uv_close in `destroy_curl_context`.
unfoldable pub context_closed : ℕ → Loop → Loop
unfolding set_at
context_closed c s = record s { contexts = set_at c none s.contexts }

abbrev pub events_of : What → Events
events_of poll_in = record { readable = true; writable = false }
events_of poll_out = record { readable = false; writable = true }
events_of poll_inout = record { readable = true; writable = true }
events_of poll_remove = record { readable = false; writable = false }
events_of poll_other = record { readable = false; writable = false }

abbrev pub context_of : ℕ → Option ℕ → Answers → Loop → Loop × Option ℕ
context_of socket none a s = create_curl_context socket a s
context_of socket (some c) a s = (s, some c)

abbrev pub watch_with : ℕ → Events → Answers → Loop × Option ℕ → Loop × Bool
watch_with socket e a (s, none) = (s, false)
watch_with socket e a (s, some c) =
    let s1 = assign socket (some c) s in
    if a.assign_ok
    then (if a.start_ok then (with_context c (poll (some e)) s1, true) else (s1, false))
    else (s, false)

-- The cases CURL_POLL_IN, _OUT and _INOUT of `multi_cb_socket`.
unfoldable pub watch : ℕ → Events → Option ℕ → Answers → Loop → Loop × Bool
unfolding create_curl_context assign with_context
watch socket e socket_data a s = watch_with socket e a (context_of socket socket_data a s)

-- uv_poll_stop and curl_multi_assign in the case CURL_POLL_REMOVE.
abbrev pub stop_polling : ℕ → Option ℕ → Answers → Loop → Loop × Bool
stop_polling socket none a s = (s, false)
stop_polling socket (some c) a s =
    let s1 = with_context c (poll none) s in
    if a.stop_ok
    then (if a.assign_ok then (assign socket none s1, true) else (s1, false))
    else (s, false)

-- The case CURL_POLL_REMOVE.
unfoldable pub unwatch : ℕ → Option ℕ → Answers → Loop → Loop × Bool
unfolding assign with_context destroy_curl_context
unwatch socket socket_data a s =
    let (s1, ok) = stop_polling socket socket_data a s in (destroy_curl_context socket_data s1, ok)

-- Whether it returns 0.
unfoldable pub multi_cb_socket : What → ℕ → Option ℕ → Answers → Loop → Loop × Bool
unfolding watch unwatch
multi_cb_socket poll_in socket socket_data a s = watch socket (events_of poll_in) socket_data a s
multi_cb_socket poll_out socket socket_data a s = watch socket (events_of poll_out) socket_data a s
multi_cb_socket poll_inout socket socket_data a s =
    watch socket (events_of poll_inout) socket_data a s
multi_cb_socket poll_remove socket socket_data a s = unwatch socket socket_data a s
multi_cb_socket poll_other socket socket_data a s = (s, true)

-- `ok`: uv_timer_stop or uv_timer_start succeeds.
unfoldable pub multi_cb_timer : ℤ → Bool → Loop → Loop × Bool
multi_cb_timer (negsuc n) ok s = (if ok then record s { uv_timer = none } else s, ok)
multi_cb_timer (pos n) ok s = (if ok then record s { uv_timer = some n } else s, ok)

-- A call that libcurl makes of ASync: of CURLMOPT_SOCKETFUNCTION or of CURLMOPT_TIMERFUNCTION.
pub data Ask : Type 0 where
  socket_ask : What → ℕ → Answers → Ask
  timer_ask : ℤ → (ok : Bool) → Ask

-- libcurl hands the context over that it holds for the socket.
unfoldable pub answer : Ask → Loop → Loop × Bool
unfolding multi_cb_socket multi_cb_timer
answer (socket_ask what socket a) s = multi_cb_socket what socket (s.assigned socket) a s
answer (timer_ask timeout_ms ok) s = multi_cb_timer timeout_ms ok s

-- Whether all of them returned 0.
unfoldable pub answer_all : List Ask → Loop → Loop × Bool
unfolding answer
answer_all [] s = (s, true)
answer_all (q ∷ qs) s =
    let (s1, ok) = answer q s in let (s2, all_ok) = answer_all qs s1 in (s2, ok && all_ok)

-- What libcurl does in curl_multi_socket_action: its calls of ASync, the number of running handles
-- that it returns, and the messages it then has.
pub record Action : Type 0 where
  pub asks : List Ask
  pub running_handles : ℕ
  pub messages : List (ℕ × ℤ × Bool)

-- curl_multi_socket_action, by its socket (none: CURL_SOCKET_TIMEOUT) and its flags.
abbrev pub SocketAction : Type 0
SocketAction = Option ℕ → Events → Action

pub record Machine (W : Type 0) : Type 0 where
  pub uv : Loop
  pub stats : Stats
  pub requests : Async W

-- CURL_CSELECT_IN and CURL_CSELECT_OUT, from UV_READABLE and UV_WRITABLE.
abbrev pub cselect : Events → Events
cselect e = record { readable = e.readable; writable = e.writable }

module _ {W : Type 0} (p : Pool W) (socket_action : SocketAction) where
  unfoldable pub perform : Option ℕ → Events → Machine W → Machine W
  unfolding answer_all multi_update_running_stats multi_fetch_messages
  perform socket flags m =
      let action = socket_action socket flags in
      record {
        uv = (answer_all action.asks m.uv).0;
        stats = multi_update_running_stats action.running_handles m.stats;
        requests = multi_fetch_messages p action.messages m.requests;
      }

  abbrev pub io : Option CurlContext → Events → Machine W → Machine W
  io none events m = m
  io (some x) events m =
      perform (some x.curl) (cselect events) (record m { uv = record (m.uv) { uv_timer = none } })

  -- `c` is the address of the context of the uv_poll_t.
  unfoldable pub uv_io_cb : ℕ → Events → Machine W → Machine W
  unfolding perform
  uv_io_cb c events m = io (m.uv.contexts c) events m

  -- libuv has disarmed the timer, which does not repeat.
  unfoldable pub uv_timeout_cb : Machine W → Machine W
  unfolding perform
  uv_timeout_cb m =
      perform none (record { readable = false; writable = false })
        (record m { uv = record (m.uv) { uv_timer = none } })
