-- ===== src/Async/RunMutex.antt =====
-- m_uv_run_mutex and m_nb_waiting_requests of src/async.cpp: the threads that start or abort a
-- request, and the worker that runs libuv, step by step.
pub mod Exclusion
use curlev.Prelude.{
  set_at, set_at_here, set_at_there, by_number, ℕ, zero, suc, ◌+◌, ◌-◌, Bool, true, false, ◌&&◌,
  ◌||◌, not, List, [], ◌∷◌, ◌==◌, if◌then◌else◌, ◌≡◌, refl, arith, ap, sym, ◌∙◌, subst, Bool-cases,
  inl, inr,
}
use curlev.Async.Sets.{mem, no_dup}

-- Where a thread is in `start_request` or `abort_request`: before or after them, after
-- `m_nb_waiting_requests++`, after the lock, after `m_nb_waiting_requests--`.
pub data Phase : Type 0 where
  outside announced locked counted : Phase

-- Who has locked the mutex.
pub data Holder : Type 0 where
  nobody worker : Holder
  thread : ℕ → Holder

pub record Turn : Type 0 where
  pub holder : Holder
  pub phase : ℕ → Phase
  pub nb_waiting_requests : ℕ

abbrev pub move : ℕ → Phase → Turn → Turn
move h p s = record s { phase = set_at h p s.phase }

-- `uv_run_accept_requests`, up to the second lock.
unfoldable pub uv_run_accept_requests : Turn → Turn
uv_run_accept_requests s = if s.nb_waiting_requests == 0 then s else record s { holder = nobody }

-- One step of a thread among `hs`, or of the worker, between its calls of uv_run.
pub data Step (hs : List ℕ) : Turn → Turn → Type 0 where
  announce :
      (h : ℕ) (s : Turn)
      → mem h hs ≡ true
      → s.phase h ≡ outside
      → Step hs s (record (move h announced s) { nb_waiting_requests = s.nb_waiting_requests + 1 })
  lock :
      (h : ℕ) (s : Turn)
      → mem h hs ≡ true
      → s.phase h ≡ announced
      → s.holder ≡ nobody
      → Step hs s (record (move h locked s) { holder = thread h })
  count :
      (h : ℕ) (s : Turn)
      → mem h hs ≡ true
      → s.phase h ≡ locked
      → Step hs s (record (move h counted s) { nb_waiting_requests = s.nb_waiting_requests - 1 })
  leave :
      (h : ℕ) (s : Turn)
      → mem h hs ≡ true
      → s.phase h ≡ counted
      → Step hs s (record (move h outside s) { holder = nobody })
  accept : (s : Turn) → s.holder ≡ worker → Step hs s (uv_run_accept_requests s)
  -- `uv_run_wait_requests`, where no request is running.
  await : (s : Turn) → s.holder ≡ worker → Step hs s (record s { holder = nobody })
  -- The lock after either.
  resume : (s : Turn) → s.holder ≡ nobody → Step hs s (record s { holder = worker })

abbrev pub idle : Turn
idle = record { holder = nobody; phase = λ h. outside; nb_waiting_requests = 0 }

pub data Reachable (hs : List ℕ) : Turn → Type 0 where
  at_start : Reachable hs idle
  after : (s t : Turn) → Reachable hs s → Step hs s t → Reachable hs t
