-- ===== src/EventLoop/Handlers.antt =====
-- The cases of `multi_cb_socket` of src/async.cpp.
use curlev.Prelude.{
  set_at, set_at_here, set_at_there, ℕ, ◌+◌, Bool, true, false, ◌&&◌, Option, none, some,
  if◌then◌else◌, ◌≡◌, refl, arith, ap, sym, ◌∙◌,
}
use curlev.EventLoop.{
  Events, CurlContext, Loop, Answers, poll, close, change, with_context, assign, watch, watch_with,
  unwatch, create_curl_context, destroy_curl_context,
}
use curlev.EventLoop.Contexts.{polled_for, context_at, Follows, Touched-Follows}
use curlev.EventLoop.Follows.{
  assigned-IsOf, lost, foreign_of, changed_fresh, watching, watching-Follows, closing_of,
  same_number,
}

clash : false ≡ true → ⊥
clash e = cc

-- What holds when both answers are good holds when the result is.
abbrev answered : {A : Type 0} → Bool → Bool → A → A → A → A × Bool
answered a b x y z = if a then (if b then (x, true) else (y, false)) else (z, false)

when_ok :
    {A : Type 0} (Q : A → Type 0) (a b : Bool) (x y z : A)
    → (answered a b x y z).1 ≡ true
    → Q x
    → Q (answered a b x y z).0
when_ok Q true true x y z ok q = q
when_ok Q true false x y z ok q = absurd (clash ok)
when_ok Q false b x y z ok q = absurd (clash ok)

-- A socket without a context: it gets one.
created-Follows :
    (wanted : ℕ → Option Events) (socket : ℕ) (e : Events) (a : Answers) (s : Loop)
    → s.assigned socket ≡ none
    → (watch socket e none a s).1 ≡ true
    → Follows wanted s
    → Follows (set_at socket (some e) wanted) (watch socket e none a s).0
unfolding watch create_curl_context
created-Follows wanted socket e a s q ok i = go (a.new_ok && a.init_ok) ok
  where
    new : CurlContext
    new = record { curl = socket; polled = none; closing = false }

    s1 : Loop
    s1 = record s {
      contexts = set_at s.allocated (some new) s.contexts;
      allocated = s.allocated + 1;
    }

    absent : polled_for socket (s.contexts s.allocated) ≡ none
    absent = ap (polled_for socket) (i.fresh s.allocated (omega arith))

    done : Follows (set_at socket (some e) wanted) (watching socket s.allocated e s1)
    done =
        watching-Follows wanted socket s.allocated e s s1 new
          (set_at_here s.allocated (some new) s.contexts) refl refl refl
          (λ n d. set_at_there s.allocated n (some new) s.contexts d)
          (λ u d. ap (polled_for u) (i.fresh s.allocated (omega arith)))
          (λ n b.
            set_at_there s.allocated n (some new) s.contexts (ground (arith, b))
            ∙ i.fresh n (omega (arith, b)))
          (λ n m. absurd (lost n (s.assigned socket) m q)) i

    go :
        (b : Bool)
        → (watch_with socket e a (if b then (s1, some s.allocated) else (s, none))).1 ≡ true
        → Follows
            (set_at socket (some e) wanted)
            (watch_with socket e a (if b then (s1, some s.allocated) else (s, none))).0
    go true k =
        when_ok (λ t. Follows (set_at socket (some e) wanted) t) a.assign_ok a.start_ok
          (watching socket s.allocated e s1) (assign socket (some s.allocated) s1) s1 k done
    go false k = absurd (clash k)

pub watch-Follows :
    (wanted : ℕ → Option Events) (socket : ℕ) (e : Events) (d : Option ℕ) (a : Answers) (s : Loop)
    → d ≡ s.assigned socket
    → (watch socket e d a s).1 ≡ true
    → Follows wanted s
    → Follows (set_at socket (some e) wanted) (watch socket e d a s).0
unfolding watch
watch-Follows wanted socket e none a s q ok i = created-Follows wanted socket e a s (sym q) ok i
watch-Follows wanted socket e (some c) a s q ok i =
    let (x, at, k, l) = assigned-IsOf wanted socket c s i (sym q) in
    when_ok (λ t. Follows (set_at socket (some e) wanted) t) a.assign_ok a.start_ok
      (watching socket c e s) (assign socket (some c) s) s ok
      (watching-Follows wanted socket c e s s x at k l refl (λ n d. refl)
        (λ u d. ap (polled_for u) at ∙ foreign_of socket u x k d) i.fresh
        (λ n m. same_number c n (q ∙ m)) i)

abbrev unwatching : ℕ → ℕ → Loop → Loop
unwatching socket c s = with_context c close (assign socket none (with_context c (poll none) s))

unwatching-Follows :
    (wanted : ℕ → Option Events) (socket c : ℕ) (s : Loop) (x : CurlContext)
    → s.contexts c ≡ some x
    → x.curl ≡ socket
    → s.assigned socket ≡ some c
    → Follows wanted s
    → Follows (set_at socket none wanted) (unwatching socket c s)
unfolding with_context assign
unwatching-Follows wanted socket c s x at k q i =
    let t : Loop = unwatching socket c s in
    let s1 : Loop = with_context c (poll none) s in
    let here1 : s1.contexts c ≡ some (poll none x) =
      set_at_here c (change (poll none) (s.contexts c)) s.contexts ∙ ap (change (poll none)) at in
    let here : t.contexts c ≡ some (close x) =
      set_at_here c (change close (s1.contexts c)) s1.contexts ∙ ap (change close) here1 in
    let mine : t.assigned socket ≡ none = set_at_here socket none s.assigned in
    Touched-Follows wanted socket c none s t
      (record {
        assigned_same = λ u d. set_at_there socket u none s.assigned d;
        contexts_same = λ n d.
            set_at_there c n (change close (s1.contexts c)) s1.contexts d
            ∙ set_at_there c n (change (poll none) (s.contexts c)) s.contexts d;
        foreign = λ u d. (
          ap (polled_for u) here ∙ foreign_of socket u (close x) k d,
          ap (polled_for u) at ∙ foreign_of socket u x k d,
        );
      })
      (λ n b.
        changed_fresh c n close s1.contexts
          (changed_fresh c n (poll none) s.contexts (i.fresh n b)))
      (ap (λ d. polled_for socket (context_at t.contexts d)) mine) (λ b. mine)
      (λ z e m. absurd (clash (sym m ∙ ap closing_of (sym e ∙ here))))
      (λ n m. same_number c n (sym q ∙ m)) i

-- A socket that libcurl is done with: its context is being closed.
pub unwatch-Follows :
    (wanted : ℕ → Option Events) (socket : ℕ) (d : Option ℕ) (a : Answers) (s : Loop)
    → d ≡ s.assigned socket
    → (unwatch socket d a s).1 ≡ true
    → Follows wanted s
    → Follows (set_at socket none wanted) (unwatch socket d a s).0
unfolding unwatch destroy_curl_context
unwatch-Follows wanted socket none a s q ok i = absurd (clash ok)
unwatch-Follows wanted socket (some c) a s q ok i =
    let (x, at, k, l) = assigned-IsOf wanted socket c s i (sym q) in
    when_ok (λ t. Follows (set_at socket none wanted) (with_context c close t)) a.stop_ok
      a.assign_ok (assign socket none (with_context c (poll none) s)) (with_context c (poll none) s)
      s ok (unwatching-Follows wanted socket c s x at k (sym q) i)
