-- ===== src/StringUtils/Fields.antt =====
-- The fields of a text between separators: the description that the key-value lists and the
-- parameters of a URL are held against.
use curlev.Prelude.{
  ℕ, suc, ◌≡◌, refl, true, not, Option, none, some, List, [], ◌∷◌, ◌++◌, arith, ◌==◌, if◌then◌else◌,
  all, Bytes,
}
use curlev.StringUtils.{find, substr_to, remove_prefix}

-- Put one byte in front of the first field.
abbrev grow : ℕ → List Bytes → List Bytes
grow c [] = (c ∷ []) ∷ []
grow c (f ∷ fs) = (c ∷ f) ∷ fs

module _ (sep : ℕ) where
  -- The fields between the separators. A separator at the end opens no field.
  unfoldable pub fields : Bytes → List Bytes
  fields [] = []
  fields (c ∷ s) = if c == sep then [] ∷ fields s else grow c (fields s)

  grow_step :
      (c : ℕ) (o : Option ℕ) (t : Bytes)
      → grow c (substr_to o t ∷ fields (remove_prefix o t))
        ≡ substr_to (elim o [ none ↦ none | some n ↦ some (suc n) ]) (c ∷ t)
          ∷ fields (remove_prefix (elim o [ none ↦ none | some n ↦ some (suc n) ]) (c ∷ t))
  grow_step c none t = unfold fields in refl
  grow_step c (some n) t = refl

  pub fields_step :
      (c : ℕ) (s : Bytes)
      → fields (c ∷ s)
        ≡ substr_to (find sep (c ∷ s)) (c ∷ s) ∷ fields (remove_prefix (find sep (c ∷ s)) (c ∷ s))
  unfolding fields
  fields_step c [] = ground arith
  fields_step c (d ∷ s) = ground (arith, fields_step d s, grow_step c (find sep (d ∷ s)) (d ∷ s))

  pub fields-append :
      (s rest : Bytes)
      → all (λ c. not (c == sep)) s ≡ true
      → fields (s ++ (sep ∷ rest)) ≡ s ∷ fields rest
  unfolding fields
  fields-append [] rest h = ground arith
  fields-append (c ∷ s) rest h = ground (arith, fields-append s rest)

  pub fields_one :
      (c : ℕ) (s : Bytes) → all (λ c. not (c == sep)) (c ∷ s) ≡ true → fields (c ∷ s) ≡ (c ∷ s) ∷ []
  unfolding fields
  fields_one c [] h = ground arith
  fields_one c (d ∷ s) h = ground (arith, fields_one d s)
