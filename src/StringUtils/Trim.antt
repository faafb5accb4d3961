-- ===== src/StringUtils/Trim.antt =====
-- `trim` of src/utils/string_utils.cpp against its description.
use mathlib.Core.List.{reverse-append, reverse-reverse, reverse-cons}
use curlev.Prelude.{
  ℕ, suc, ◌+◌, ◌-◌, ◌≤◌, ◌<◌, ◌≡◌, refl, ap, sym, ◌∙◌, Bool, true, [], ◌∷◌, ◌++◌, reverse,
  append-nil, arith, if◌then◌else◌, length, take, drop, all, length-append, length-reverse,
  all-append, append_assoc, take-append-drop, Bytes,
}
use curlev.StringUtils.{find_if_not, trim}

module _ (p : ℕ → Bool) where
  drop_while : Bytes → Bytes
  drop_while [] = []
  drop_while (c ∷ s) = if p c then drop_while s else c ∷ s

  drop-find_if_not : (s : Bytes) → drop (find_if_not p s) s ≡ drop_while s
  unfolding drop_while
  drop-find_if_not [] = refl
  drop-find_if_not (c ∷ s) = ground (arith, drop-find_if_not s)

  find_if_not-le : (s : Bytes) → find_if_not p s ≤ length s
  find_if_not-le [] = omega arith
  find_if_not-le (c ∷ s) = ground (arith, find_if_not-le s)

  -- The search stops inside `s`, or goes on behind it.
  find_if_not-append :
      (s t : Bytes)
      → find_if_not p (s ++ t) ≡ (if all p s then length s + find_if_not p t else find_if_not p s)
  find_if_not-append [] t = omega arith
  find_if_not-append (c ∷ s) t = ground (arith, find_if_not-append s t)

  all-find_if_not : (s : Bytes) → all p s ≡ true → find_if_not p s ≡ length s
  all-find_if_not [] h = refl
  all-find_if_not (c ∷ s) h = ground (arith, all-find_if_not s)

  -- Neither end of the text passes.
  abbrev pub IsTrimmed : Bytes → Type 0
  IsTrimmed s = (find_if_not p s ≡ 0) × (find_if_not p (reverse s) ≡ 0)

  find_if_not-append_zero :
      (s t : Bytes) → 0 < length s → find_if_not p s ≡ 0 → find_if_not p (s ++ t) ≡ 0
  find_if_not-append_zero [] t h e = absurd (omega arith)
  find_if_not-append_zero (c ∷ s) t h e = ground arith

  all-reverse : (s : Bytes) → all p s ≡ true → all p (reverse s) ≡ true
  all-reverse [] h = refl
  all-reverse (c ∷ s) h =
      rw (reverse-cons c s, all-append p (reverse s) (c ∷ [])) (ground (arith, all-reverse s))

  all_white : (s : Bytes) → all p s ≡ true → trim p s ≡ []
  unfolding trim
  all_white s h =
      ground (
        arith,
        all-find_if_not s h,
        all-find_if_not (reverse s) (all-reverse s h),
        length-reverse s,
      )

  first_end :
      (l m r : Bytes)
      → all p l ≡ true
      → 0 < length m
      → find_if_not p m ≡ 0
      → find_if_not p (l ++ (m ++ r)) ≡ length l
  first_end l m r hl hm e =
      rw (find_if_not-append l (m ++ r), hl) (omega (arith, find_if_not-append_zero m r hm e))

  reverse-three : (l m r : Bytes) → reverse (l ++ (m ++ r)) ≡ reverse r ++ (reverse m ++ reverse l)
  reverse-three l m r =
      rw (reverse-append l (m ++ r), reverse-append m r)
        (append_assoc (reverse r) (reverse m) (reverse l))

  middle : (l m r : Bytes) → take (length m) (drop (length l) (l ++ (m ++ r))) ≡ m
  middle [] [] r = refl
  middle [] (c ∷ m) r = ap (λ s. c ∷ s) (middle [] m r)
  middle (c ∷ l) m r = middle l m r

  last_end :
      (l m r : Bytes)
      → all p r ≡ true
      → 0 < length m
      → find_if_not p (reverse m) ≡ 0
      → find_if_not p (reverse (l ++ (m ++ r))) ≡ length r
  last_end l m r hr hm e = rw (reverse-three l m r) (
      first_end (reverse r) (reverse m) (reverse l) (all-reverse r hr)
        (omega (arith, length-reverse m)) e
      ∙ length-reverse r)

  -- White space round a trimmed text is removed, and nothing else is.
  pub trim_exact :
      (l m r : Bytes) → all p l ≡ true → all p r ≡ true → IsTrimmed m → trim p (l ++ (m ++ r)) ≡ m
  unfolding trim
  trim_exact l [] r hl hr t = unfold trim in all_white (l ++ r) (rw (all-append p l r, hl) hr)
  trim_exact l (c ∷ m) r hl hr (t, u) =
      rw (first_end l (c ∷ m) r hl (omega arith) t, last_end l (c ∷ m) r hr (omega arith) u)
        (ground (arith, size, middle l (c ∷ m) r, span))
    where
      size : length (l ++ (c ∷ m ++ r)) ≡ length l + (suc (length m) + length r)
      size = omega (arith, length-append l (c ∷ m ++ r), length-append (c ∷ m) r)

      span : length (l ++ (c ∷ m ++ r)) - length r - length l ≡ suc (length m)
      span = omega (arith, size)

  front :
      (s : Bytes)
      → (all p (take (find_if_not p s) s) ≡ true) × (find_if_not p (drop (find_if_not p s) s) ≡ 0)
  front [] = (refl, refl)
  front (c ∷ s) = ground (arith, front s)

  find_if_not_of_append : (s t : Bytes) → find_if_not p (s ++ t) ≡ 0 → find_if_not p s ≡ 0
  find_if_not_of_append [] t e = refl
  find_if_not_of_append (c ∷ s) t e = ground arith

  -- A text, cut in its two margins and what is between them.
  record Parts (s : Bytes) : Type 0 where
    left : Bytes
    core : Bytes
    right : Bytes
    whole : s ≡ left ++ (core ++ right)
    white_left : all p left ≡ true
    white_right : all p right ≡ true
    trimmed : IsTrimmed core

  parts : (s : Bytes) → Parts s
  parts s = record {
    left = take b s;
    core = reverse (drop k y);
    right = reverse (take k y);
    whole = sym (ap (λ t. take b s ++ t) (sym rest) ∙ take-append-drop b s);
    white_left = (front s).0;
    white_right = all-reverse (take k y) (front y).0;
    trimmed = (
      find_if_not_of_append (reverse (drop k y)) (reverse (take k y)) (rw (← rest) (front s).1),
      rw (reverse-reverse (drop k y)) (front y).1,
    );
  }
    where
      b : ℕ
      b = find_if_not p s

      y : Bytes
      y = reverse (drop b s)

      k : ℕ
      k = find_if_not p y

      rest : drop b s ≡ reverse (drop k y) ++ reverse (take k y)
      rest =
          sym (reverse-reverse (drop b s))
          ∙ ap reverse (sym (take-append-drop k y))
          ∙ reverse-append (take k y) (drop k y)

  -- Every text is what `trim` keeps between two margins of white space, and what it keeps neither
  -- begins nor ends with white space.
  trim-IsTrimmed :
      (s : Bytes)
      → (l r : Bytes) × (s ≡ l ++ (trim p s ++ r))
        × (all p l ≡ true)
        × (all p r ≡ true)
        × IsTrimmed (trim p s)
  trim-IsTrimmed s = rw kept (d.left, d.right, d.whole, d.white_left, d.white_right, d.trimmed)
    where
      d : Parts s
      d = parts s

      kept : trim p s ≡ d.core
      kept =
          ap (trim p) d.whole
          ∙ trim_exact d.left d.core d.right d.white_left d.white_right d.trimmed

  pub trim_self : (s : Bytes) → IsTrimmed s → trim p s ≡ s
  trim_self s t = ap (trim p) (sym (append-nil s)) ∙ trim_exact [] s [] refl refl t
