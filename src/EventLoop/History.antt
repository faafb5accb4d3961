-- ===== src/EventLoop/History.antt =====
-- What libcurl has asked for so far, and what libuv does: src/async.cpp.
use curlev.Prelude.{
  Bool, Bool-cases, inl, inr, ◌==◌, ◌||◌, ◌&&◌, true, false, ◌==◌, ◌||◌, ℕ, true, false, Option,
  none, some, List, [], ◌∷◌, if◌then◌else◌, ◌≡◌, refl, arith, ap, ◌∙◌,
}
use curlev.Prelude.Int.{pos, negsuc}
use curlev.Async.{Pool}
use curlev.EventLoop.{
  Events, CurlContext, Loop, multi_cb_socket, multi_cb_timer, create_curl_context, assign,
  with_context, watch, unwatch, destroy_curl_context, context_closed, poll_in, poll_out, poll_inout,
  poll_remove, poll_other, Ask, socket_ask, timer_ask, answer, answer_all, SocketAction, Machine,
  perform, uv_io_cb, uv_timeout_cb, cselect, Answers, watch_with, context_of, stop_polling, What,
}
use curlev.EventLoop.Contexts.{polled_by, Follows}
use curlev.EventLoop.Follows.{lost}
use curlev.EventLoop.Turns.{asked, answer-Follows, context_closed-Follows, retimed-Follows}

-- No socket yet.
abbrev pub unwatched : Loop
unwatched = record {
  contexts = λ c. none;
  allocated = 0;
  assigned = λ socket. none;
  uv_timer = none;
}

-- The states of the event loop while every call of libcurl returns 0, with what libcurl asked for
-- last on behalf of each socket.
pub data Followed : (ℕ → Option Events) → Loop → Type 0 where
  unstarted : Followed (λ socket. none) unwatched
  called :
      (wanted : ℕ → Option Events) (q : Ask) (s : Loop)
      → Followed wanted s
      → (answer q s).1 ≡ true
      → Followed (asked q wanted) (answer q s).0
  closed :
      (wanted : ℕ → Option Events) (c : ℕ) (x : CurlContext) (s : Loop)
      → Followed wanted s
      → s.contexts c ≡ some x
      → x.closing ≡ true
      → Followed wanted (context_closed c s)
  timed :
      (wanted : ℕ → Option Events) (t : Option ℕ) (s : Loop)
      → Followed wanted s
      → Followed wanted (record s { uv_timer = t })

Followed-Follows : (wanted : ℕ → Option Events) (s : Loop) → Followed wanted s → Follows wanted s
Followed-Follows wanted s unstarted = record {
  fresh = λ c b. refl;
  polls = λ u. refl;
  unwanted = λ u b. refl;
  owned = λ c x e l. absurd (lost x none e refl);
}
Followed-Follows wanted s (called w q t f ok) = answer-Follows w q t ok (Followed-Follows w t f)
Followed-Follows wanted s (closed w c x t f at cl) =
    context_closed-Follows w c x t at cl (Followed-Follows w t f)
Followed-Follows wanted s (timed w t r f) = retimed-Follows w t r (Followed-Follows w r f)

abbrev points_to : Option ℕ → ℕ → Bool
points_to none c = false
points_to (some d) c = c == d

abbrev is_some : Option Events → Bool
is_some none = false
is_some (some e) = true

-- Whether the context at `c`, if there is one and it is not being closed, is the one that libcurl
-- holds for its socket, and libcurl wants something of that socket.
abbrev pub needed_at : (ℕ → Option Events) → Loop → ℕ → Option CurlContext → Bool
needed_at wanted s c none = true
needed_at wanted s c (some x) =
    x.closing || (points_to (s.assigned x.curl) c && is_some (wanted x.curl))

wanted_if_owned :
    (c : ℕ) (d : Option ℕ) (w : Option Events)
    → d ≡ some c
    → (w ≡ none → d ≡ none)
    → is_some w ≡ true
wanted_if_owned c d none q f = absurd (lost c d q (f refl))
wanted_if_owned c d (some e) q f = refl

points-owned : (c : ℕ) (d : Option ℕ) → d ≡ some c → points_to d c ≡ true
points-owned c none q = absurd (lost c none q refl)
points-owned c (some d) q = ground (arith, q)

needed_all :
    (wanted : ℕ → Option Events) (s : Loop) (c : ℕ) (o : Option CurlContext)
    → Follows wanted s
    → s.contexts c ≡ o
    → needed_at wanted s c o ≡ true
needed_all wanted s c none i e = refl
needed_all wanted s c (some x) i e = elim (Bool-cases (x.closing)) [
  | inl l ↦ ground (arith, l)
  | inr l ↦
      let q : s.assigned x.curl ≡ some c = i.owned c x e l in
      ground (
        arith,
        points-owned c (s.assigned x.curl) q,
        wanted_if_owned c (s.assigned x.curl) (wanted x.curl) q (i.unwanted x.curl),
      )
]

-- As long as every call of libcurl returns 0, libuv waits, on behalf of each socket, for exactly what
-- libcurl last asked for, through the context that libcurl holds; and each context that is not being
-- closed is the one that libcurl holds for a socket that it still wants.
pub polled_as_asked :
    (wanted : ℕ → Option Events) (s : Loop) (socket c : ℕ)
    → Followed wanted s
    → (polled_by s socket ≡ wanted socket) × (needed_at wanted s c (s.contexts c) ≡ true)
polled_as_asked wanted s socket c f =
    let i = Followed-Follows wanted s f in
    (i.polls socket, needed_all wanted s c (s.contexts c) i refl)

-- The timer that libcurl asked for last, among some calls.
unfoldable pub last_timer : List Ask → Option ℕ → Option ℕ
last_timer [] t = t
last_timer (socket_ask what socket a ∷ qs) t = last_timer qs t
last_timer (timer_ask (pos n) ok ∷ qs) t = last_timer qs (if ok then some n else t)
last_timer (timer_ask (negsuc n) ok ∷ qs) t = last_timer qs (if ok then none else t)

module _ (socket : ℕ) (a : Answers) where
  created_timer : (s : Loop) → (create_curl_context socket a s).0.uv_timer ≡ s.uv_timer
  unfolding create_curl_context
  created_timer s = ground arith

  watch_timer :
      (e : Events) (d : Option ℕ) (s : Loop) → (watch socket e d a s).0.uv_timer ≡ s.uv_timer
  unfolding watch assign with_context
  watch_timer e none s = go (create_curl_context socket a s) (created_timer s)
    where
      go :
          (r : Loop × Option ℕ)
          → r.0.uv_timer ≡ s.uv_timer
          → (watch_with socket e a r).0.uv_timer ≡ s.uv_timer
      go (s1, none) h = h
      go (s1, some c) h = ground (arith, h)
  watch_timer e (some c) s = ground arith

  unwatch_timer : (d : Option ℕ) (s : Loop) → (unwatch socket d a s).0.uv_timer ≡ s.uv_timer
  unfolding unwatch assign with_context destroy_curl_context
  unwatch_timer none s = refl
  unwatch_timer (some c) s = ground arith

  socket_timer :
      (what : What) (d : Option ℕ) (s : Loop)
      → (multi_cb_socket what socket d a s).0.uv_timer ≡ s.uv_timer
  unfolding multi_cb_socket
  socket_timer poll_in d s = watch_timer _ d s
  socket_timer poll_out d s = watch_timer _ d s
  socket_timer poll_inout d s = watch_timer _ d s
  socket_timer poll_remove d s = unwatch_timer d s
  socket_timer poll_other d s = refl

answer_all_timer :
    (qs : List Ask) (s : Loop) → (answer_all qs s).0.uv_timer ≡ last_timer qs s.uv_timer
unfolding answer_all answer multi_cb_timer last_timer
answer_all_timer [] s = refl
answer_all_timer (socket_ask what socket a ∷ qs) s =
    answer_all_timer qs (multi_cb_socket what socket (s.assigned socket) a s).0
    ∙ ap (last_timer qs) (socket_timer socket a what (s.assigned socket) s)
answer_all_timer (timer_ask (pos n) true ∷ qs) s =
    answer_all_timer qs (record s { uv_timer = some n })
answer_all_timer (timer_ask (pos n) false ∷ qs) s = answer_all_timer qs s
answer_all_timer (timer_ask (negsuc n) true ∷ qs) s =
    answer_all_timer qs (record s { uv_timer = none })
answer_all_timer (timer_ask (negsuc n) false ∷ qs) s = answer_all_timer qs s

-- When libuv reports a socket, the timer that libcurl had asked for is dropped: it is armed
-- afterwards only if libcurl asks for one again in the meantime, on any branch of its answers.
pub uv_io_cb-last_timer :
    {W : Type 0} (p : Pool W) (socket_action : SocketAction) (c : ℕ) (x : CurlContext)
    (events : Events) (m : Machine W)
    → m.uv.contexts c ≡ some x
    → (uv_io_cb p socket_action c events m).uv.uv_timer
      ≡ last_timer (socket_action (some x.curl) (cselect events)).asks none
unfolding uv_io_cb perform
uv_io_cb-last_timer p socket_action c x events m at =
    ap (λ o. (curlev.EventLoop.io p socket_action o events m).uv.uv_timer) at
    ∙ answer_all_timer (socket_action (some x.curl) (cselect events)).asks
        (record (m.uv) { uv_timer = none })

abbrev pub asked_all : List Ask → (ℕ → Option Events) → ℕ → Option Events
asked_all [] wanted = wanted
asked_all (q ∷ qs) wanted = asked_all qs (asked q wanted)

answer_all-Followed :
    (qs : List Ask) (wanted : ℕ → Option Events) (s : Loop)
    → (answer_all qs s).1 ≡ true
    → Followed wanted s
    → Followed (asked_all qs wanted) (answer_all qs s).0
unfolding answer_all
answer_all-Followed [] wanted s ok f = f
answer_all-Followed (q ∷ qs) wanted s ok f =
    answer_all-Followed qs (asked q wanted) (answer q s).0 (ground (arith, ok))
      (called wanted q s f (ground (arith, ok)))

-- A turn of libuv, for a socket, in which ASync returns 0 each time that libcurl calls it, leaves
-- libuv waiting for what libcurl asked for in the meantime, and, where it did not, for what it
-- wanted before.
pub uv_io_cb-polled_by :
    {W : Type 0} (p : Pool W) (socket_action : SocketAction) (c : ℕ) (x : CurlContext)
    (events : Events) (wanted : ℕ → Option Events) (m : Machine W)
    → m.uv.contexts c ≡ some x
    → (answer_all
        (socket_action (some x.curl) (cselect events)).asks
        (record (m.uv) { uv_timer = none })).1
      ≡ true
    → Followed wanted m.uv
    → (socket : ℕ)
    → polled_by (uv_io_cb p socket_action c events m).uv socket
      ≡ asked_all (socket_action (some x.curl) (cselect events)).asks wanted socket
unfolding uv_io_cb perform
uv_io_cb-polled_by p socket_action c x events wanted m at ok f socket =
    ap (λ o. polled_by (curlev.EventLoop.io p socket_action o events m).uv socket) at
    ∙ (Followed-Follows _ _ (
          answer_all-Followed (socket_action (some x.curl) (cselect events)).asks wanted
            (record (m.uv) { uv_timer = none }) ok (timed wanted none m.uv f))).polls
        socket
