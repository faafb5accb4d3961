-- ===== src/EventLoop/Contexts.antt =====
-- The contexts of sockets: src/async.cpp.
use curlev.Prelude.{
  set_at, set_at_here, set_at_there, by_number, ℕ, ◌≤◌, Bool, true, false, ◌&&◌, not, Option, none,
  some, ◌==◌, if◌then◌else◌, ◌≡◌, refl, arith, Bool-cases, inl, inr, ap, subst, sym, ◌∙◌,
}
use curlev.EventLoop.{
  Events, What, CurlContext, Loop, events_of, poll_in, poll_out, poll_inout, poll_remove,
  poll_other,
}

-- What the context waits for on behalf of a socket.
abbrev pub polled_for : ℕ → Option CurlContext → Option Events
polled_for socket none = none
polled_for socket (some x) = if x.curl == socket && not x.closing then x.polled else none

abbrev pub context_at : (ℕ → Option CurlContext) → Option ℕ → Option CurlContext
context_at contexts none = none
context_at contexts (some c) = contexts c

-- What libuv waits for on behalf of a socket, through the context that libcurl holds.
abbrev pub polled_by : Loop → ℕ → Option Events
polled_by s socket = polled_for socket (context_at s.contexts (s.assigned socket))

abbrev pub is_some : {A : Type 0} → Option A → Bool
is_some none = false
is_some (some a) = true

-- The contexts follow what libcurl last asked for.
pub record Follows (wanted : ℕ → Option Events) (s : Loop) : Type 0 where
  pub fresh : (c : ℕ) → s.allocated ≤ c → s.contexts c ≡ none
  pub polls : (socket : ℕ) → polled_by s socket ≡ wanted socket
  pub unwanted : (socket : ℕ) → wanted socket ≡ none → s.assigned socket ≡ none
  pub owned :
      (c : ℕ) (x : CurlContext)
      → s.contexts c ≡ some x
      → x.closing ≡ false
      → s.assigned x.curl ≡ some c

-- What libcurl asked for, once it has asked for `what`.
unfoldable pub ask : What → ℕ → (ℕ → Option Events) → ℕ → Option Events
unfolding set_at
ask poll_in socket wanted = set_at socket (some (events_of poll_in)) wanted
ask poll_out socket wanted = set_at socket (some (events_of poll_out)) wanted
ask poll_inout socket wanted = set_at socket (some (events_of poll_inout)) wanted
ask poll_remove socket wanted = set_at socket none wanted
ask poll_other socket wanted = wanted

-- The two states differ by one socket and by one context, which is no other socket's.
pub record Touched (socket c : ℕ) (s t : Loop) : Type 0 where
  pub assigned_same : (u : ℕ) → (u == socket) ≡ false → t.assigned u ≡ s.assigned u
  pub contexts_same : (n : ℕ) → (n == c) ≡ false → t.contexts n ≡ s.contexts n
  pub foreign :
      (u : ℕ)
      → (u == socket) ≡ false
      → (polled_for u (t.contexts c) ≡ none) × (polled_for u (s.contexts c) ≡ none)

untouched :
    (socket c : ℕ) (s t : Loop) (u : ℕ)
    → Touched socket c s t
    → (u == socket) ≡ false
    → polled_by t u ≡ polled_by s u
untouched socket c s t u h e =
    ap (λ d. polled_for u (context_at t.contexts d)) (h.assigned_same u e) ∙ go (s.assigned u)
  where
    go :
        (d : Option ℕ)
        → polled_for u (context_at t.contexts d) ≡ polled_for u (context_at s.contexts d)
    go none = refl
    go (some n) = elim (Bool-cases (n == c)) [
      | inl q ↦
          let (a, b) = h.foreign u e in
          subst (λ m. polled_for u (t.contexts m) ≡ polled_for u (s.contexts m)) (ground (arith, q))
            (a ∙ sym b)
      | inr q ↦ ap (polled_for u) (h.contexts_same n q)
    ]

-- The contexts follow when they do at the socket that was touched.
pub Touched-Follows :
    (wanted : ℕ → Option Events) (socket c : ℕ) (e : Option Events) (s t : Loop)
    → Touched socket c s t
    → ((n : ℕ) → t.allocated ≤ n → t.contexts n ≡ none)
    → polled_by t socket ≡ e
    → (e ≡ none → t.assigned socket ≡ none)
    → ((x : CurlContext) → t.contexts c ≡ some x → x.closing ≡ false → t.assigned x.curl ≡ some c)
    → ((n : ℕ) → s.assigned socket ≡ some n → (n == c) ≡ true)
    → Follows wanted s
    → Follows (set_at socket e wanted) t
Touched-Follows wanted socket c e s t h fresh here gone own only i = record {
  fresh = fresh;
  polls =
      by_number (λ u. polled_by t u ≡ set_at socket e wanted u) socket
        (here ∙ sym (set_at_here socket e wanted))
        λ u d. untouched socket c s t u h d ∙ i.polls u ∙ sym (set_at_there socket u e wanted d);
  unwanted =
      by_number (λ u. set_at socket e wanted u ≡ none → t.assigned u ≡ none) socket
        (λ q. gone (sym (set_at_here socket e wanted) ∙ q))
        λ u d q. h.assigned_same u d ∙ i.unwanted u (sym (set_at_there socket u e wanted d) ∙ q);
  owned =
      by_number
        (λ n.
          (x : CurlContext)
          → t.contexts n ≡ some x
          → x.closing ≡ false
          → t.assigned x.curl ≡ some n)
        c own
        λ n d x q l.
          let mine : s.assigned x.curl ≡ some n = i.owned n x (sym (h.contexts_same n d) ∙ q) l in
          elim (Bool-cases (x.curl == socket)) [
            | inl k ↦ ground (arith, only n (ap s.assigned (sym (ground (arith, k))) ∙ mine), d)
            | inr k ↦ h.assigned_same x.curl k ∙ mine
          ];
}
