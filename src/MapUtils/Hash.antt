-- ===== src/MapUtils/Hash.antt =====
-- The header map of src/utils/map_utils.cpp: its hash agrees with its equality.
use curlev.Prelude.{
  Bool, ◌↔◌, false, ◌&&◌, ◌||◌, leb, ℕ, ◌≡◌, refl, true, not, [], ◌∷◌, some, arith, ◌==◌,
  if◌then◌else◌, all, Bytes, ◌*◌, ◌+◌, ◌%◌,
}
use curlev.StringUtils.{equal_ascii_ci, ulong_mod, to_lower}
use curlev.StringUtils.Case.{lowered, equal_ascii_ci_iff}
use curlev.MapUtils.{KeyValues, same_key, hash_ci, hash_ci_loop, insert_or_assign, lookup_ci}

-- The hash of a text that is lowered already.
hash_lowered : ℕ → Bytes → ℕ
hash_lowered h [] = h
hash_lowered h (c ∷ s) = hash_lowered ((31 * h + c) % ulong_mod) s

hash_ci_loop-lowered : (h : ℕ) (s : Bytes) → hash_ci_loop h s ≡ hash_lowered h (lowered s)
unfolding hash_ci_loop hash_lowered
hash_ci_loop-lowered h [] = refl
hash_ci_loop-lowered h (c ∷ s) = hash_ci_loop-lowered ((31 * h + to_lower c) % ulong_mod) s

abbrev pub HasNoNul : Bytes → Type 0
HasNoNul s = all (λ c. not (c == 0)) s ≡ true

-- Keys that the map takes for equal have one hash, if they hold no NUL byte: what an unordered_map
-- wants of the two functors.
hash_ci-equal : (a b : Bytes) → HasNoNul a → equal_ascii_ci a b ≡ true → hash_ci a ≡ hash_ci b
unfolding hash_ci
hash_ci-equal a b h e =
    ground
      (arith, hash_ci_loop-lowered 0 a, hash_ci_loop-lowered 0 b, (equal_ascii_ci_iff a b h).0 e)

abbrev is_upper : ℕ → Bool
is_upper c = leb b'A' c && leb c b'Z'

-- The two bytes are one letter, in either case, or the same byte.
abbrev same_letter : ℕ → ℕ → Bool
same_letter c d = c == d || ((is_upper c && c + 32 == d) || (is_upper d && d + 32 == c))

-- The two texts differ in the case of their ASCII letters alone.
abbrev pub is_spelling : Bytes → Bytes → Bool
is_spelling [] [] = true
is_spelling [] (d ∷ b) = false
is_spelling (c ∷ a) [] = false
is_spelling (c ∷ a) (d ∷ b) = same_letter c d && is_spelling a b

same_letter-to_lower : (c d : ℕ) → (to_lower c ≡ to_lower d) ↔ (same_letter c d ≡ true)
same_letter-to_lower c d = (λ e. ground (arith, e), λ e. ground (arith, e))

is_spelling-lowered : (a b : Bytes) → (lowered a ≡ lowered b) ↔ (is_spelling a b ≡ true)
is_spelling-lowered [] [] = (λ e. refl, λ e. refl)
is_spelling-lowered [] (d ∷ b) = (λ e. cc, λ e. cc)
is_spelling-lowered (c ∷ a) [] = (λ e. cc, λ e. cc)
is_spelling-lowered (c ∷ a) (d ∷ b) =
    let l = same_letter-to_lower c d in
    let r = is_spelling-lowered a b in
    (λ e. ground (arith, l.0, r.0, e), λ e. ground (arith, l.1, r.1, e))

-- So the two functors of the map agree on the keys: those that differ in case alone are one.
same_key-lowered : (a b : Bytes) → HasNoNul a → (same_key a b ≡ true) ↔ (lowered a ≡ lowered b)
unfolding same_key
same_key-lowered a b h = (
  λ e. (equal_ascii_ci_iff a b h).0 (ground (arith, e)),
  λ e. let eq = (equal_ascii_ci_iff a b h).1 e in ground (arith, eq, hash_ci-equal a b h eq),
)

-- A header that is stored is found under every name that differs from its own in the case of
-- ASCII letters alone, by the hash and the equality of the map together, and all other names keep
-- what they had. No name holds a NUL byte.
pub lookup_ci-insert_or_assign :
    (key other value : Bytes) (m : KeyValues)
    → HasNoNul key
    → HasNoNul other
    → all (λ p. all (λ c. not (c == 0)) p.0) m ≡ true
    → lookup_ci other (insert_or_assign key value m)
      ≡ (if is_spelling key other then some value else lookup_ci other m)
unfolding lookup_ci insert_or_assign
lookup_ci-insert_or_assign key other value [] h g hm =
    ground (arith, same_key-lowered key other h, is_spelling-lowered key other)
lookup_ci-insert_or_assign key other value ((k, v) ∷ m) h g hm = ground (
  arith,
  lookup_ci-insert_or_assign key other value m h g,
  same_key-lowered k key,
  same_key-lowered k other,
  is_spelling-lowered key other,
)
