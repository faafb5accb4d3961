-- ===== src/StringUtils/Cskv.antt =====
-- `parse_cskv` of include/utils/string_utils.hpp against the list of the text's fields.
use curlev.Prelude.{
  ℕ, zero, suc, ◌≤◌, ◌≡◌, refl, ◌∙◌, Bool, true, not, ◌||◌, take-append, drop-append, Option, none,
  some, List, [], ◌∷◌, ◌++◌, arith, ◌==◌, length, drop, all, All, Bytes, and_then, and_then-ext,
  and_then-cong, and_then_assoc, false, ap,
}
use curlev.StringUtils.{
  comma, equals, is_space, find, substr_to, remove_prefix, parse_pair, parse_cskv_loop, parse_cskv,
}
use curlev.StringUtils.Trim.{trim_self, IsTrimmed}
use curlev.StringUtils.Fields.{fields, fields_step, fields-append, fields_one}

length-drop-le {ℓ} : {A : Type ℓ} (n : ℕ) (s : List A) → length (drop n s) ≤ length s
length-drop-le zero s = omega arith
length-drop-le (suc n) [] = omega arith
length-drop-le (suc n) (c ∷ s) = omega (arith, length-drop-le n s)

length-remove_prefix :
    (o : Option ℕ) (c : ℕ) (s : Bytes) → length (remove_prefix o (c ∷ s)) ≤ length s
length-remove_prefix none c s = omega arith
length-remove_prefix (some n) c s = length-drop-le n s

module _ {ℓ} {S : Type ℓ} (handler : S → Bytes → Bytes → S × Bool) where
  -- The handler at each field in order, up to the first failure.
  pub run_fields : List Bytes → S → S × Bool
  run_fields [] state = (state, true)
  run_fields (f ∷ fs) state = and_then (parse_pair handler f state) (run_fields fs)

  loop-run_fields :
      (fuel : ℕ) (s : Bytes) (state : S)
      → length s ≤ fuel
      → parse_cskv_loop handler fuel s state ≡ run_fields (fields comma s) state
  unfolding parse_cskv_loop run_fields
  loop-run_fields fuel [] state h = unfold fields in refl
  loop-run_fields zero (c ∷ s) state h = absurd (omega arith)
  loop-run_fields (suc fuel) (c ∷ s) state h =
      let o = find comma (c ∷ s) in
      rw (fields_step comma c s) (
        and_then-ext (parse_pair handler (substr_to o (c ∷ s)) state) λ next.
          loop-run_fields fuel (remove_prefix o (c ∷ s)) next
            (omega (arith, length-remove_prefix o c s)))

  -- The loop ends, and it is the handler at each field in order, up to the first failure.
  parse_cskv-run_fields :
      (s : Bytes) (state : S) → parse_cskv handler s state ≡ run_fields (fields comma s) state
  unfolding parse_cskv
  parse_cskv-run_fields s state = loop-run_fields (length s) s state (omega arith)

-- A key and a value that a list of pairs can hold.
pub record IsPair (pair : Bytes × Bytes) : Type 0 where
  pub plain_key : all (λ c. not (c == comma || c == equals)) pair.0 ≡ true
  pub plain_value : all (λ c. not (c == comma)) pair.1 ≡ true
  pub trimmed_key : IsTrimmed is_space pair.0
  pub trimmed_value : IsTrimmed is_space pair.1

abbrev pub write_pair : Bytes × Bytes → Bytes
write_pair (key, value) = key ++ (equals ∷ value)

-- `key=value,key=value`, as the callers write it.
pub write_cskv : List (Bytes × Bytes) → Bytes
write_cskv [] = []
write_cskv (p ∷ []) = write_pair p
write_cskv (p ∷ q ∷ ps) = write_pair p ++ (comma ∷ write_cskv (q ∷ ps))

find-key :
    (key value : Bytes)
    → all (λ c. not (c == comma || c == equals)) key ≡ true
    → find equals (key ++ (equals ∷ value)) ≡ some (length key)
find-key [] value h = ground arith
find-key (c ∷ key) value h = ground (arith, find-key key value)

write_pair_plain :
    (p : Bytes × Bytes) → IsPair p → all (λ c. not (c == comma)) (write_pair p) ≡ true
write_pair_plain (key, value) v = go key v.plain_key
  where
    go :
        (s : Bytes)
        → all (λ c. not (c == comma || c == equals)) s ≡ true
        → all (λ c. not (c == comma)) (s ++ (equals ∷ value)) ≡ true
    go [] h = ground arith
    go (c ∷ s) h = ground (arith, go s)

fields_pair : (p : Bytes × Bytes) → IsPair p → fields comma (write_pair p) ≡ write_pair p ∷ []
fields_pair ([], value) v = fields_one comma equals value (write_pair_plain ([], value) v)
fields_pair (c ∷ key, value) v =
    fields_one comma c (key ++ (equals ∷ value)) (write_pair_plain (c ∷ key, value) v)

module _ {ℓ} {S : Type ℓ} (handler : S → Bytes → Bytes → S × Bool) where
  -- The handler at each pair in order, up to the first failure.
  unfoldable pub run_pairs : List (Bytes × Bytes) → S → S × Bool
  run_pairs [] state = (state, true)
  run_pairs ((key, value) ∷ ps) state = and_then (handler state key value) (run_pairs ps)

  parse_pair-write_pair :
      (p : Bytes × Bytes) (state : S)
      → IsPair p
      → parse_pair handler (write_pair p) state ≡ handler state p.0 p.1
  unfolding parse_pair
  parse_pair-write_pair (key, value) state v = rw (
    find-key key value v.plain_key,
    parse_pair,
    take-append key (equals ∷ value),
    drop-append key equals value,
    trim_self is_space key v.trimmed_key,
    trim_self is_space value v.trimmed_value,
  )

  run_fields-write :
      (ps : List (Bytes × Bytes)) (state : S)
      → All IsPair ps
      → run_fields handler (fields comma (write_cskv ps)) state ≡ run_pairs ps state
  unfolding run_fields run_pairs write_cskv
  run_fields-write [] state v = unfold fields in refl
  run_fields-write (p ∷ []) state (v, vs) =
      rw (fields_pair p v) (and_then-cong (parse_pair-write_pair p state v) (λ next. refl))
  run_fields-write (p ∷ q ∷ ps) state (v, vs) =
      rw (fields-append comma (write_pair p) (write_cskv (q ∷ ps)) (write_pair_plain p v))
        (and_then-cong (parse_pair-write_pair p state v) λ next. run_fields-write (q ∷ ps) next vs)

  -- A list of pairs is read back as written: the handler is called at each pair in order, up to
  -- the first that it refuses. No pair holds a comma, no key an equals sign, and no key or value
  -- has white space at its ends.
  pub parse_cskv-write :
      (ps : List (Bytes × Bytes)) (state : S)
      → All IsPair ps
      → parse_cskv handler (write_cskv ps) state ≡ run_pairs ps state
  parse_cskv-write ps state v =
      parse_cskv-run_fields handler (write_cskv ps) state ∙ run_fields-write ps state v

  run_pairs-append :
      (ps qs : List (Bytes × Bytes)) (state : S)
      → run_pairs (ps ++ qs) state ≡ and_then (run_pairs ps state) (run_pairs qs)
  unfolding run_pairs
  run_pairs-append [] qs state = refl
  run_pairs-append ((key, value) ∷ ps) qs state =
      and_then-ext (handler state key value) (λ next. run_pairs-append ps qs next)
      ∙ and_then_assoc (handler state key value) (run_pairs ps) (run_pairs qs)

  -- A pair that the handler refuses, and refuses with no change, ends the list: what stands before
  -- it has been done, and what stands behind it has not.
  pub parse_cskv_stops :
      (ps qs : List (Bytes × Bytes)) (bad : Bytes × Bytes) (state next : S)
      → All IsPair (ps ++ (bad ∷ qs))
      → run_pairs ps state ≡ (next, true)
      → handler next bad.0 bad.1 ≡ (next, false)
      → parse_cskv handler (write_cskv (ps ++ (bad ∷ qs))) state ≡ (next, false)
  unfolding run_pairs
  parse_cskv_stops ps qs bad state next v done refused =
      parse_cskv-write (ps ++ (bad ∷ qs)) state v
      ∙ run_pairs-append ps (bad ∷ qs) state
      ∙ ap (λ r. and_then r (run_pairs (bad ∷ qs))) done
      ∙ ap (λ r. and_then r (run_pairs qs)) refused
