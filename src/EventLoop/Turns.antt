-- ===== src/EventLoop/Turns.antt =====
-- Turns of libuv: src/async.cpp.
use curlev.Prelude.{
  set_at, set_at_here, set_at_there, ℕ, true, false, Option, none, some, ◌≡◌, refl, arith, ap, sym,
  ◌∙◌, by_number,
}
use curlev.Prelude.Int.{pos, negsuc}
use curlev.EventLoop.{
  Events, What, CurlContext, Loop, Answers, context_closed, multi_cb_socket, multi_cb_timer,
  events_of, poll_in, poll_out, poll_inout, poll_remove, poll_other, Ask, socket_ask, timer_ask,
  answer,
}
use curlev.EventLoop.Contexts.{polled_for, context_at, Follows, ask}
use curlev.EventLoop.Follows.{lost}
use curlev.EventLoop.Handlers.{unwatch-Follows, watch-Follows}

-- What libcurl wants, after a call.
unfoldable pub asked : Ask → (ℕ → Option Events) → ℕ → Option Events
unfolding ask
asked (socket_ask what socket a) wanted = ask what socket wanted
asked (timer_ask timeout_ms ok) wanted = wanted

pub socket-Follows :
    (wanted : ℕ → Option Events) (what : What) (socket : ℕ) (a : Answers) (s : Loop)
    → (multi_cb_socket what socket (s.assigned socket) a s).1 ≡ true
    → Follows wanted s
    → Follows (ask what socket wanted) (multi_cb_socket what socket (s.assigned socket) a s).0
unfolding multi_cb_socket ask
socket-Follows wanted poll_in socket a s ok i =
    watch-Follows wanted socket (events_of poll_in) (s.assigned socket) a s refl ok i
socket-Follows wanted poll_out socket a s ok i =
    watch-Follows wanted socket (events_of poll_out) (s.assigned socket) a s refl ok i
socket-Follows wanted poll_inout socket a s ok i =
    watch-Follows wanted socket (events_of poll_inout) (s.assigned socket) a s refl ok i
socket-Follows wanted poll_remove socket a s ok i =
    unwatch-Follows wanted socket (s.assigned socket) a s refl ok i
socket-Follows wanted poll_other socket a s ok i = i

pub retimed-Follows :
    (wanted : ℕ → Option Events) (t : Option ℕ) (s : Loop)
    → Follows wanted s
    → Follows wanted (record s { uv_timer = t })
retimed-Follows wanted t s i = record {
  fresh = i.fresh;
  polls = i.polls;
  unwanted = i.unwanted;
  owned = i.owned;
}

pub answer-Follows :
    (wanted : ℕ → Option Events) (q : Ask) (s : Loop)
    → (answer q s).1 ≡ true
    → Follows wanted s
    → Follows (asked q wanted) (answer q s).0
unfolding answer asked multi_cb_timer
answer-Follows wanted (socket_ask what socket a) s ok i = socket-Follows wanted what socket a s ok i
answer-Follows wanted (timer_ask (pos n) true) s ok i = retimed-Follows wanted (some n) s i
answer-Follows wanted (timer_ask (pos n) false) s ok i = i
answer-Follows wanted (timer_ask (negsuc n) true) s ok i = retimed-Follows wanted none s i
answer-Follows wanted (timer_ask (negsuc n) false) s ok i = i

-- A closed context is deleted.
pub context_closed-Follows :
    (wanted : ℕ → Option Events) (c : ℕ) (x : CurlContext) (s : Loop)
    → s.contexts c ≡ some x
    → x.closing ≡ true
    → Follows wanted s
    → Follows wanted (context_closed c s)
unfolding context_closed
context_closed-Follows wanted c x s at cl i = record {
  fresh = λ n b. gone n (i.fresh n b);
  polls = λ u. same u (s.assigned u) ∙ i.polls u;
  unwanted = i.unwanted;
  owned =
      by_number
        (λ n.
          (y : CurlContext)
          → set_at c none s.contexts n ≡ some y
          → y.closing ≡ false
          → s.assigned y.curl ≡ some n)
        c (λ y e l. absurd (lost y (set_at c none s.contexts c) e (set_at_here c none s.contexts)))
        λ n d y e l. i.owned n y (sym (set_at_there c n none s.contexts d) ∙ e) l;
}
  where
    gone : (n : ℕ) → s.contexts n ≡ none → set_at c none s.contexts n ≡ none
    gone =
        by_number (λ n. s.contexts n ≡ none → set_at c none s.contexts n ≡ none) c
          (λ e. set_at_here c none s.contexts) λ n d e. set_at_there c n none s.contexts d ∙ e

    idle : (u : ℕ) → polled_for u (s.contexts c) ≡ none
    idle u = ap (polled_for u) at ∙ ground (arith, cl)

    same :
        (u : ℕ) (d : Option ℕ)
        → polled_for u (context_at (set_at c none s.contexts) d)
          ≡ polled_for u (context_at s.contexts d)
    same u none = refl
    same u (some n) =
        by_number (λ n. polled_for u (set_at c none s.contexts n) ≡ polled_for u (s.contexts n)) c
          (ap (polled_for u) (set_at_here c none s.contexts) ∙ sym (idle u))
          (λ n d. ap (polled_for u) (set_at_there c n none s.contexts d)) n
