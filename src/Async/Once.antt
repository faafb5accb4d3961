-- ===== src/Async/Once.antt =====
-- Every request that ASync accepts is notified once: src/async.cpp.
use curlev.Prelude.{ℕ, ◌+◌, ◌≡◌, arith, List, [], ◌∷◌, length, refl, ap}
use curlev.Async.Sets.{mem, count, count_of}
use curlev.Async.Lifecycle.{IsValid}
use curlev.Async.Moves.{initial-IsValid}
use curlev.Async.Events.{Event, Allowed, handle, handle-IsValid}
use curlev.Async.{Async, Pool, initial}

-- The states that ASync reaches from its start with the wrappers `w`.
pub data Reachable {W : Type 0} (p : Pool W) (w : W) : Async W → Type 0 where
  at_start : Reachable p w (initial w)
  after : (e : Event) (s : Async W) → Reachable p w s → Allowed e s → Reachable p w (handle p e s)

pub Reachable-IsValid :
    {W : Type 0} (p : Pool W) (w : W) (s : Async W) → Reachable p w s → IsValid s
Reachable-IsValid p w _ at_start = initial-IsValid p w
Reachable-IsValid p w _ (after e s r a) = handle-IsValid p e s (Reachable-IsValid p w s r) a

length_none : {A : Type 0} → (xs : List A) → length xs ≡ 0 → xs ≡ []
length_none [] e = refl
length_none (x ∷ xs) e = ground arith

-- In every state that ASync reaches by events that may happen, m_nb_running_requests is the number
-- of the requests that are started or that wait in the callback queue. These are the states
-- between two events: while no call of start_request is under way, and the callback thread is not
-- inside a notification, each of which counts one more. Aborting a request that waits for its retry
-- timer, or whose timer is being closed, is no event that may happen here; nor is starting one
-- whose last request was not notified yet.
pub running_requests_counted :
    {W : Type 0} (p : Pool W) (w : W) (s : Async W)
    → Reachable p w s
    → s.nb_running_requests ≡ length s.started + length s.cb_queue
running_requests_counted p w s r = (Reachable-IsValid p w s r).counted

-- In every state that ASync reaches by events that may happen, and in which no request is running,
-- which wait_pending_requests waits for, each handle has been notified exactly as often as a
-- request of it was accepted. Aborting a request that waits for its retry timer, or whose timer is
-- being closed, is no event that may happen here; nor is starting one whose last request was not
-- notified yet.
pub all_notified_once :
    {W : Type 0} (p : Pool W) (w : W) (s : Async W) (h : ℕ)
    → Reachable p w s
    → s.nb_running_requests ≡ 0
    → count h s.accepted ≡ count_of h s.notified
unfolding mem count_of
all_notified_once p w s h r z =
    let i = Reachable-IsValid p w s r in
    let none_started = length_none s.started (ground (arith, i.counted)) in
    let none_queued = length_none s.cb_queue (ground (arith, i.counted)) in
    ground (arith, (i.sound h).once, ap (mem h) none_started, ap (count_of h) none_queued)
