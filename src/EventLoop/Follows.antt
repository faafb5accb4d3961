-- ===== src/EventLoop/Follows.antt =====
-- A socket of src/async.cpp that libuv watches for libcurl.
use curlev.Prelude.{
  set_at, set_at_here, set_at_there, ℕ, ◌≤◌, Bool, true, false, ◌&&◌, not, Option, none, some, ◌==◌,
  ◌≡◌, refl, arith, Bool-cases, inl, inr, ap, subst, sym, ◌∙◌,
}
use curlev.EventLoop.{Events, CurlContext, Loop, poll, change, with_context, assign}
use curlev.EventLoop.Contexts.{polled_for, context_at, Follows, Touched-Follows}

-- A context of `socket` that is not being closed.
abbrev pub IsOf : ℕ → Option CurlContext → Type 0
IsOf socket o = (x : CurlContext) × (o ≡ some x) × (x.curl ≡ socket) × (x.closing ≡ false)

pub lost : {A : Type 0} (c : A) (d : Option A) → d ≡ some c → d ≡ none → ⊥
lost c d e f = cc

abbrev curl_of : Option CurlContext → ℕ
curl_of none = 0
curl_of (some x) = x.curl

abbrev pub closing_of : Option CurlContext → Bool
closing_of none = true
closing_of (some x) = x.closing

-- A change of one context creates none.
pub changed_fresh :
    (c n : ℕ) (f : CurlContext → CurlContext) (g : ℕ → Option CurlContext)
    → g n ≡ none
    → set_at c (change f (g c)) g n ≡ none
changed_fresh c n f g e = elim (Bool-cases (n == c)) [
  | inl q ↦
      subst (λ m. g m ≡ none → set_at c (change f (g c)) g m ≡ none) (ground (arith, q))
        (λ z. set_at_here c (change f (g c)) g ∙ ap (change f) z) e
  | inr q ↦ set_at_there c n (change f (g c)) g q ∙ e
]

-- The context that libcurl holds for a socket is there, and is that socket's.
pub assigned-IsOf :
    (wanted : ℕ → Option Events) (socket c : ℕ) (s : Loop)
    → Follows wanted s
    → s.assigned socket ≡ some c
    → IsOf socket (s.contexts c)
assigned-IsOf wanted socket c s i q =
    go (s.contexts c) (wanted socket)
      (ap (λ d. polled_for socket (context_at s.contexts d)) (sym q) ∙ i.polls socket)
      (i.unwanted socket)
  where
    none_of :
        (x : CurlContext)
        → (x.curl == socket && not x.closing) ≡ false
        → polled_for socket (some x) ≡ none
    none_of x k = rw (k) refl

    go :
        (o : Option CurlContext) (w : Option Events)
        → polled_for socket o ≡ w
        → (w ≡ none → s.assigned socket ≡ none)
        → IsOf socket o
    go none w e f = absurd (lost c (s.assigned socket) q (f (sym e)))
    go (some x) w e f = elim (Bool-cases (x.curl == socket && not x.closing)) [
      | inl k ↦ (x, refl, ground (arith, k), ground (arith, k))
      | inr k ↦ absurd (lost c (s.assigned socket) q (f (sym e ∙ none_of x k)))
    ]

-- A context that is gone, closing, or of one socket does nothing for the others.
pub foreign_of :
    (socket u : ℕ) (x : CurlContext)
    → x.curl ≡ socket
    → (u == socket) ≡ false
    → polled_for u (some x) ≡ none
foreign_of socket u x e d = ground (arith, e, d)

-- The state after CURL_POLL_IN, _OUT or _INOUT, when the context was there or was just created.
abbrev pub watching : ℕ → ℕ → Events → Loop → Loop
watching socket c e s = with_context c (poll (some e)) (assign socket (some c) s)

pub watching-Follows :
    (wanted : ℕ → Option Events) (socket c : ℕ) (e : Events) (s0 s : Loop) (x : CurlContext)
    → s.contexts c ≡ some x
    → x.curl ≡ socket
    → x.closing ≡ false
    → s.assigned ≡ s0.assigned
    → ((n : ℕ) → (n == c) ≡ false → s.contexts n ≡ s0.contexts n)
    → ((u : ℕ) → (u == socket) ≡ false → polled_for u (s0.contexts c) ≡ none)
    → ((n : ℕ) → s.allocated ≤ n → s.contexts n ≡ none)
    → ((n : ℕ) → s0.assigned socket ≡ some n → (n == c) ≡ true)
    → Follows wanted s0
    → Follows (set_at socket (some e) wanted) (watching socket c e s)
unfolding with_context assign
watching-Follows wanted socket c e s0 s x at k l a cs f fr only i =
    let t : Loop = watching socket c e s in
    let y : CurlContext = poll (some e) x in
    let here : t.contexts c ≡ some y =
      set_at_here c (change (poll (some e)) (s.contexts c)) s.contexts
      ∙ ap (change (poll (some e))) at in
    let mine : t.assigned socket ≡ some c = set_at_here socket (some c) s.assigned in
    Touched-Follows wanted socket c (some e) s0 t
      (record {
        assigned_same = λ u d. set_at_there socket u (some c) s.assigned d ∙ ap (λ g. g u) a;
        contexts_same = λ n d. set_at_there c n _ s.contexts d ∙ cs n d;
        foreign = λ u d. (ap (polled_for u) here ∙ foreign_of socket u y k d, f u d);
      })
      (λ n b. changed_fresh c n (poll (some e)) s.contexts (fr n b))
      (ap (λ d. polled_for socket (context_at t.contexts d)) mine
        ∙ ap (polled_for socket) here
        ∙ ground (arith, k, l))
      (λ b. cc)
      (λ z q m. subst (λ v. t.assigned v ≡ some c) (sym (ap curl_of (sym q ∙ here) ∙ k)) mine) only
      i

pub same_number : (c n : ℕ) → some c ≡ some n → (n == c) ≡ true
same_number c n e = ground (arith, e)
