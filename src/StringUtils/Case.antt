-- ===== src/StringUtils/Case.antt =====
-- `equal_ascii_ci` of src/utils/string_utils.cpp against equality of the lowered texts.
use curlev.Prelude.{
  suc, ◌≡◌, refl, ap, ◌↔◌, true, not, [], ◌∷◌, ◌++◌, arith, ◌==◌, all, length, length-append, Bytes,
  map,
}
use curlev.StringUtils.{to_lower, strcasecmp_eq, equal_ascii_ci}

abbrev pub lowered : Bytes → Bytes
lowered = map to_lower

length-lowered : (s : Bytes) → length (lowered s) ≡ length s
length-lowered [] = refl
length-lowered (c ∷ s) = ap suc (length-lowered s)

strcasecmp_eq-lowered :
    (a b : Bytes)
    → all (λ c. not (c == 0)) a ≡ true
    → length a ≡ length b
    → (strcasecmp_eq a b ≡ true) ↔ (lowered a ≡ lowered b)
unfolding strcasecmp_eq
strcasecmp_eq-lowered [] [] h e = (λ _. refl, λ _. refl)
strcasecmp_eq-lowered [] (d ∷ b) h e = absurd (omega arith)
strcasecmp_eq-lowered (c ∷ a) [] h e = absurd (omega arith)
strcasecmp_eq-lowered (c ∷ a) (d ∷ b) h e =
    let ih = strcasecmp_eq-lowered a b (ground arith) (omega arith) in
    (λ p. ground (arith, ih.0), λ q. ground (arith, ih.1))

-- On a text with no NUL byte, the test says exactly whether the two texts are equal once their
-- capitals are lowered.
pub equal_ascii_ci_iff :
    (a b : Bytes)
    → all (λ c. not (c == 0)) a ≡ true
    → (equal_ascii_ci a b ≡ true) ↔ (lowered a ≡ lowered b)
unfolding equal_ascii_ci
equal_ascii_ci_iff a b h = (
  λ p. (strcasecmp_eq-lowered a b h (ground arith)).0 (ground arith),
  λ q.
      let e : length a ≡ length b =
        omega (arith, ap length q, length-lowered a, length-lowered b) in
      ground (arith, (strcasecmp_eq-lowered a b h e).1 q),
)

strcasecmp_eq_prefix : (s x y : Bytes) → strcasecmp_eq (s ++ (0 ∷ x)) (s ++ (0 ∷ y)) ≡ true
unfolding strcasecmp_eq
strcasecmp_eq_prefix [] x y = refl
strcasecmp_eq_prefix (c ∷ s) x y = ground (arith, strcasecmp_eq_prefix s x y)

-- What stands behind a NUL byte is not compared: texts of one length that differ only there are
-- taken for equal.
pub equal_ascii_ci-after_nul :
    (s x y : Bytes) → length x ≡ length y → equal_ascii_ci (s ++ (0 ∷ x)) (s ++ (0 ∷ y)) ≡ true
unfolding equal_ascii_ci
equal_ascii_ci-after_nul s x y e =
    ground (arith, strcasecmp_eq_prefix s x y, length-append s (0 ∷ x), length-append s (0 ∷ y))
