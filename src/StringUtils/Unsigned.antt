-- ===== src/StringUtils/Unsigned.antt =====
-- `svtoul` of src/utils/string_utils.cpp: exact on every text.
use curlev.Prelude.{
  ℕ, ◌+◌, ◌-◌, ◌*◌, ◌≤◌, ◌≡◌, refl, true, ◌&&◌, Option, none, some, [], ◌∷◌, arith, leb,
  if◌then◌else◌, Bool-cases, inl, inr, all, is_empty, inl, inr, Bytes,
}
use curlev.StringUtils.{is_digit, ulong_max, svtoul, svtoul_loop}

-- The number that digits spell behind `n`, with no bound.
unfoldable pub decimal : ℕ → Bytes → ℕ
decimal n [] = n
decimal n (c ∷ s) = decimal (n * 10 + (c - b'0')) s

pub decimal_step : (c n : ℕ) (s : Bytes) → decimal n (c ∷ s) ≡ decimal (n * 10 + (c - b'0')) s
unfolding decimal
decimal_step c n s = refl

pub le-decimal : (n : ℕ) (s : Bytes) → n ≤ decimal n s
unfolding decimal
le-decimal n [] = omega arith
le-decimal n (c ∷ s) = omega (arith, le-decimal (n * 10 + (c - b'0')) s)

-- What a number's text is worth, if it fits below the bound.
abbrev pub read_decimal : ℕ → Bytes → Option ℕ
read_decimal max s = if all is_digit s && leb (decimal 0 s) max then some (decimal 0 s) else none

-- A digit too many is refused; without one the word does not wrap.
digit_fits :
    (c value : ℕ) (s : Bytes)
    → value ≤ ulong_max
    → is_digit c ≡ true
    → svtoul_loop (c ∷ s) value ≡ (
        if leb (value * 10 + (c - b'0')) ulong_max
        then svtoul_loop s (value * 10 + (c - b'0'))
        else none)
unfolding svtoul_loop
digit_fits c value s h d = ground arith

svtoul_loop_lem :
    (s : Bytes) (value : ℕ)
    → value ≤ ulong_max
    → svtoul_loop s value
      ≡ (if all is_digit s && leb (decimal value s) ulong_max then some (decimal value s) else none)
svtoul_loop_lem [] value h = unfold svtoul_loop decimal in ground arith
svtoul_loop_lem (c ∷ s) value h = elim (Bool-cases (is_digit c)) [
  | inl d ↦ rw (digit_fits c value s h d) (
      ground (
        arith,
        svtoul_loop_lem s (value * 10 + (c - b'0')),
        le-decimal (value * 10 + (c - b'0')) s,
        decimal_step c value s,
      ))
  | inr d ↦ unfold svtoul_loop in ground arith
]

-- `svtoul` accepts the texts of one or more digits whose number fits 64 bits, each as that number,
-- and no other text.
svtoul_exact : (s : Bytes) → svtoul s ≡ (if is_empty s then none else read_decimal ulong_max s)
unfolding svtoul
svtoul_exact [] = refl
svtoul_exact (c ∷ s) = svtoul_loop_lem (c ∷ s) 0 (omega arith)
