-- ===== src/Async/ShareLocks.antt =====
-- The locks of what the easy handles share, m_share_locks of include/async.hpp, and the two
-- functions that libcurl calls for them, src/async.cpp. A call that would wait gives `none`.
use curlev.Prelude.{
  set_at, set_at_here, set_at_there, ℕ, ◌+◌, ◌-◌, Bool, Option, none, some, ◌==◌, if◌then◌else◌,
  ◌≡◌, refl, arith, ap, sym, ◌∙◌, subst, Bool-cases, inl, inr, by_number,
}

-- A pthread_rwlock_t: its number of readers, or its writer.
pub data RwLock : Type 0 where
  readers : ℕ → RwLock
  writer : RwLock

-- class shared_mutex
unfoldable pub lock : RwLock → Option RwLock
lock (readers n) = if n == 0 then some writer else none
lock writer = none

unfoldable pub lock_shared : RwLock → Option RwLock
lock_shared (readers n) = some (readers (n + 1))
lock_shared writer = none

unfoldable pub unlock : RwLock → RwLock
unlock (readers n) = readers (n - 1)
unlock writer = readers 0

-- CURL_LOCK_ACCESS_SHARED, or another value.
pub data Access : Type 0 where
  access_shared access_other : Access

abbrev pub lock_for : Access → RwLock → Option RwLock
lock_for access_shared l = lock_shared l
lock_for access_other l = lock l

-- The locks, by curl_lock_data.
abbrev pub Locks : Type 0
Locks = ℕ → RwLock

abbrev stored : ℕ → Locks → Option RwLock → Option Locks
stored data_ locks none = none
stored data_ locks (some l) = some (set_at data_ l locks)

unfoldable pub share_cb_lock : ℕ → Access → Locks → Option Locks
unfolding lock lock_shared set_at
share_cb_lock data_ access locks = stored data_ locks (lock_for access (locks data_))

unfoldable pub share_cb_unlock : ℕ → Locks → Locks
unfolding unlock set_at
share_cb_unlock data_ locks = set_at data_ (unlock (locks data_)) locks

missing : (k : RwLock) → none ≡ some k → ⊥
missing k e = cc

value_of : RwLock → Option RwLock → RwLock
value_of l none = l
value_of l (some k) = k

all_of : Locks → Option Locks → Locks
all_of locks none = locks
all_of locks (some held) = held

no_locks : (held : Locks) → none ≡ some held → ⊥
no_locks held e = cc

lock-unlock : (a : Access) (l k : RwLock) → lock_for a l ≡ some k → unlock k ≡ l
unfolding lock lock_shared unlock value_of
lock-unlock access_shared (readers n) k e =
    sym (ap (λ o. unlock (value_of writer o)) e) ∙ ap readers (omega arith)
lock-unlock access_shared writer k e = absurd (missing k e)
lock-unlock access_other (readers n) k e = elim (Bool-cases (n == 0)) [
  | inl z ↦
      let e1 : some writer ≡ some k = sym (ap (locked_if n) z) ∙ e in
      sym (ap (λ o. unlock (value_of writer o)) e1) ∙ ap readers (ground (arith, z))
  | inr z ↦ absurd (missing k (sym (ap (locked_if n) z) ∙ e))
]
  where
    locked_if : ℕ → Bool → Option RwLock
    locked_if n b = if b then some writer else none
lock-unlock access_other writer k e = absurd (missing k e)

stored-unlock :
    (data_ : ℕ) (a : Access) (locks held : Locks) (o : Option RwLock)
    → lock_for a (locks data_) ≡ o
    → stored data_ locks o ≡ some held
    → (n : ℕ) → share_cb_unlock data_ held n ≡ locks n
unfolding share_cb_unlock all_of
stored-unlock data_ a locks held none q e = absurd (no_locks held e)
stored-unlock data_ a locks held (some l) q e =
    subst (λ (h : Locks). (n : ℕ) → share_cb_unlock data_ h n ≡ locks n) (ap (all_of locks) e)
      (by_number (λ n. share_cb_unlock data_ (set_at data_ l locks) n ≡ locks n) data_
        (set_at_here data_ (unlock (set_at data_ l locks data_)) (set_at data_ l locks)
          ∙ ap unlock (set_at_here data_ l locks)
          ∙ lock-unlock a (locks data_) l q)
        λ n d.
          set_at_there data_ n (unlock (set_at data_ l locks data_)) (set_at data_ l locks) d
          ∙ set_at_there data_ n l locks d)

-- Whether libcurl took a lock to read or to write, the unlock gives back what it took, and no lock
-- of other data changes.
pub share_cb_lock-unlock :
    (data_ : ℕ) (a : Access) (locks held : Locks)
    → share_cb_lock data_ a locks ≡ some held
    → (n : ℕ) → share_cb_unlock data_ held n ≡ locks n
unfolding share_cb_lock
share_cb_lock-unlock data_ a locks held e =
    stored-unlock data_ a locks held (lock_for a (locks data_)) refl e
