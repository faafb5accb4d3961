-- ===== src/StringUtils/Signed.antt =====
-- `svtol` of src/utils/string_utils.cpp: exact below 2^64, and what happens above.
use curlev.Prelude.{
  ℕ, ◌+◌, ◌-◌, ◌*◌, ◌%◌, ◌≤◌, ◌<◌, ◌≡◌, ◌≢◌, refl, true, false, ◌&&◌, Option, none, some, [], ◌∷◌,
  ◌++◌, arith, leb, ◌==◌, if◌then◌else◌, inl, inr, Bool-cases, all, is_empty, Bytes,
}
use curlev.Prelude.Int.{ℤ, pos}
use curlev.StringUtils.{is_digit, ulong_mod, long_max, negated, svtol_loop, svtol_magnitude, svtol}
use curlev.StringUtils.Unsigned.{decimal, decimal_step, le-decimal, read_decimal}

svtol_loop_lem :
    (max : ℕ) (s : Bytes) (value : ℕ)
    → value ≤ max
    → decimal value s < ulong_mod
    → svtol_loop max s value
      ≡ (if all is_digit s && leb (decimal value s) max then some (decimal value s) else none)
unfolding svtol_loop
svtol_loop_lem max [] value h fits = unfold decimal in ground arith
svtol_loop_lem max (c ∷ s) value h fits =
    let next : ℕ = value * 10 + (c - b'0') in
    ground (arith, svtol_loop_lem max s next, le-decimal next s, decimal_step c value s)

-- The text behind the sign.
abbrev pub unsigned_part : Bytes → Bytes
unsigned_part [] = []
unsigned_part (c ∷ s) = if c == b'-' then s else c ∷ s

abbrev pub read_signed : Bytes → Option ℤ
read_signed [] = none
read_signed (c ∷ s) =
    if c == b'-'
    then (if is_empty s
        then none
        else elim (read_decimal (long_max + 1) s) [ none ↦ none | some v ↦ some (negated v) ])
    else elim (read_decimal long_max (c ∷ s)) [ none ↦ none | some v ↦ some (pos v) ]

negative :
    (s : Bytes)
    → decimal 0 s < ulong_mod
    → svtol_magnitude true s ≡ (
        if is_empty s
        then none
        else elim (read_decimal (long_max + 1) s) [ none ↦ none | some v ↦ some (negated v) ])
unfolding svtol_magnitude
negative [] fits = refl
negative (c ∷ s) fits = ground (arith, svtol_loop_lem (long_max + 1) (c ∷ s) 0)

positive :
    (c : ℕ) (s : Bytes)
    → decimal 0 (c ∷ s) < ulong_mod
    → svtol_magnitude false (c ∷ s)
      ≡ elim (read_decimal long_max (c ∷ s)) [ none ↦ none | some v ↦ some (pos v) ]
unfolding svtol_magnitude
positive c s fits = ground (arith, svtol_loop_lem long_max (c ∷ s) 0)

-- A text whose digits spell less than 2^64 is accepted exactly if it is a decimal number of the
-- range of `long`, with at most a minus sign before it, and gives that number.
pub svtol_exact : (s : Bytes) → decimal 0 (unsigned_part s) < ulong_mod → svtol s ≡ read_signed s
unfolding svtol
svtol_exact [] fits = refl
svtol_exact (c ∷ s) fits = elim (Bool-cases (c == b'-')) [
  | inl e ↦ ground (arith, negative s)
  | inr e ↦ ground (arith, positive c s)
]

svtol_loop-append :
    (max : ℕ) (s : Bytes) (c value : ℕ)
    → value ≤ max
    → all is_digit s ≡ true
    → is_digit c ≡ true
    → decimal value s ≤ max
    → max < ulong_mod
    → (decimal value s * 10 + (c - b'0')) % ulong_mod ≤ max
    → svtol_loop max (s ++ (c ∷ [])) value ≡ some ((decimal value s * 10 + (c - b'0')) % ulong_mod)
unfolding svtol_loop
svtol_loop-append max [] c value h ds d le m fits = unfold decimal in ground arith
svtol_loop-append max (b ∷ s) c value h ds d le m fits =
    let next : ℕ = value * 10 + (b - b'0') in
    ground (arith, svtol_loop-append max s c next, le-decimal next s, decimal_step b value s)

decimal-append :
    (s : Bytes) (c value : ℕ) → decimal value (s ++ (c ∷ [])) ≡ decimal value s * 10 + (c - b'0')
unfolding decimal
decimal-append [] c value = refl
decimal-append (b ∷ s) c value = decimal-append s c (value * 10 + (b - b'0'))

-- A digit that takes the sum past 2^64 is accepted wherever what is left of the sum after the wrap
-- is small enough: `svtol` then succeeds with a number that the text does not spell.
svtol_wraps :
    (b c : ℕ) (s : Bytes)
    → all is_digit (b ∷ s) ≡ true
    → is_digit c ≡ true
    → decimal 0 (b ∷ s) ≤ long_max
    → ulong_mod ≤ decimal 0 (b ∷ s ++ (c ∷ []))
    → decimal 0 (b ∷ s ++ (c ∷ [])) % ulong_mod ≤ long_max
    → (svtol (b ∷ s ++ (c ∷ [])) ≡ some (pos (decimal 0 (b ∷ s ++ (c ∷ [])) % ulong_mod)))
      × (decimal 0 (b ∷ s ++ (c ∷ [])) % ulong_mod ≢ decimal 0 (b ∷ s ++ (c ∷ [])))
unfolding svtol svtol_magnitude
svtol_wraps b c s ds d le big fits = (
  ground (arith, svtol_loop-append long_max (b ∷ s) c 0, decimal-append (b ∷ s) c 0),
  omega arith,
)
