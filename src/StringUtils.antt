-- ===== src/StringUtils.antt =====
-- include/utils/string_utils.hpp and src/utils/string_utils.cpp: texts, numbers, key-value lists.
-- A text is a list of bytes. The character classes are those of the "C" locale, and `long` and
-- `unsigned long` have 64 bits.
pub mod Trim
pub mod Fields
pub mod Cskv
pub mod Unsigned
pub mod Signed
pub mod Case
use curlev.Prelude.{
  ℕ, zero, suc, ◌+◌, ◌-◌, ◌*◌, ◌/◌, ◌%◌, ◌^◌, Bool, true, false, not, ◌&&◌, ◌||◌, Option, none,
  some, List, [], ◌∷◌, reverse, ltb, leb, ◌==◌, if◌then◌else◌, length, take, drop, all, is_empty,
  and_then, Bytes,
}
use curlev.Prelude.Int.{ℤ, pos, negsuc}

abbrev pub comma : ℕ
comma = b','

abbrev pub equals : ℕ
equals = b'='

-- ::isspace
abbrev pub is_space : ℕ → Bool
is_space c = c == 32 || (leb 9 c && leb c 13)

abbrev pub is_digit : ℕ → Bool
is_digit c = leb b'0' c && leb c b'9'

-- ::tolower
abbrev pub to_lower : ℕ → ℕ
to_lower c = if leb b'A' c && leb c b'Z' then c + 32 else c

-- std::find_if_not, as an offset; the length where every byte passes.
abbrev pub find_if_not : (ℕ → Bool) → Bytes → ℕ
find_if_not p [] = 0
find_if_not p (c ∷ s) = if p c then suc (find_if_not p s) else 0

-- The two iterators are offsets from the start of the text.
unfoldable pub trim : (ℕ → Bool) → Bytes → Bytes
trim is_white s =
    let begin = find_if_not is_white s in
    let end = length s - find_if_not is_white (reverse s) in
    if ltb begin end then take (end - begin) (drop begin s) else []

-- string_view::find of one character; `none` is npos.
abbrev pub find : ℕ → Bytes → Option ℕ
find c [] = none
find c (d ∷ s) = if d == c then some 0 else elim (find c s) [ none ↦ none | some n ↦ some (suc n) ]

-- substr( 0, position )
abbrev pub substr_to : Option ℕ → Bytes → Bytes
substr_to none s = s
substr_to (some n) s = take n s

-- remove_prefix: the text behind the comma, or nothing where there is none.
abbrev pub remove_prefix : Option ℕ → Bytes → Bytes
remove_prefix none s = []
remove_prefix (some n) s = drop (suc n) s

module _ {ℓ} {S : Type ℓ} (handler : S → Bytes → Bytes → S × Bool) where
  -- One round on `key_value`: the handler's state, and whether the loop goes on.
  pub parse_pair : Bytes → S → S × Bool
  parse_pair key_value state = elim (find equals key_value) [
    | none ↦ (state, false)
    | some n ↦
        handler state (trim is_space (take n key_value)) (trim is_space (drop (suc n) key_value))
  ]

  -- The loop, on fuel; `false` beside a text that is left means that the fuel ran out.
  pub parse_cskv_loop : ℕ → Bytes → S → S × Bool
  parse_cskv_loop fuel [] state = (state, true)
  parse_cskv_loop zero (c ∷ s) state = (state, false)
  parse_cskv_loop (suc fuel) (c ∷ s) state =
      let comma_pos = find comma (c ∷ s) in
      and_then (parse_pair (substr_to comma_pos (c ∷ s)) state)
        (parse_cskv_loop fuel (remove_prefix comma_pos (c ∷ s)))

  -- Every round takes a byte at least, so the length is enough fuel.
  unfoldable pub parse_cskv : Bytes → S → S × Bool
  unfolding parse_pair parse_cskv_loop
  parse_cskv s state = parse_cskv_loop (length s) s state

abbrev pub ulong_mod : ℕ
ulong_mod = 2 ^ 64

abbrev pub ulong_max : ℕ
ulong_max = 2 ^ 64 - 1

abbrev pub long_max : ℕ
long_max = 2 ^ 63 - 1

-- The loop of `svtol`: the sum is taken in `unsigned long`, then compared.
svtol_loop : ℕ → Bytes → ℕ → Option ℕ
svtol_loop max [] value = some value
svtol_loop max (c ∷ s) value =
    let next = (value * 10 + (c - b'0')) % ulong_mod in
    if is_digit c then (if ltb max next then none else svtol_loop max s next) else none

-- -value, taken in `unsigned long` and read as `long`.
abbrev pub negated : ℕ → ℤ
negated zero = pos 0
negated (suc n) = negsuc n

svtol_magnitude : Bool → Bytes → Option ℤ
unfolding svtol_loop
svtol_magnitude negative [] = none
svtol_magnitude true (c ∷ s) = elim (svtol_loop (long_max + 1) (c ∷ s) 0) [
  | none ↦ none
  | some v ↦ some (negated v)
]
svtol_magnitude false (c ∷ s) = elim (svtol_loop long_max (c ∷ s) 0) [
  | none ↦ none
  | some v ↦ some (pos v)
]

-- `none`: false, and the caller's value is kept.
unfoldable pub svtol : Bytes → Option ℤ
unfolding svtol_magnitude
svtol [] = none
svtol (c ∷ s) = if c == b'-' then svtol_magnitude true s else svtol_magnitude false (c ∷ s)

-- The loop of `svtoul`: both tests come before the operation that they guard.
svtoul_loop : Bytes → ℕ → Option ℕ
svtoul_loop [] value = some value
svtoul_loop (c ∷ s) value =
    let digit = c - b'0' in
    let scaled = (value * 10) % ulong_mod in
    let next = (scaled + digit) % ulong_mod in
    if is_digit c
    then (if ltb (ulong_max / 10) value
        then none
        else if ltb (ulong_max - digit) scaled
        then none
        else svtoul_loop s next)
    else none

unfoldable pub svtoul : Bytes → Option ℕ
unfolding svtoul_loop
svtoul [] = none
svtoul (c ∷ s) = svtoul_loop (c ∷ s) 0

-- strcasecmp( … ) == 0 on the two C strings: a byte 0, or the end of the text, ends each.
pub strcasecmp_eq : Bytes → Bytes → Bool
strcasecmp_eq [] [] = true
strcasecmp_eq [] (d ∷ t) = d == 0
strcasecmp_eq (c ∷ s) [] = c == 0
strcasecmp_eq (c ∷ s) (d ∷ t) =
    if to_lower c == to_lower d then (c == 0 || strcasecmp_eq s t) else false

unfoldable pub equal_ascii_ci : Bytes → Bytes → Bool
unfolding strcasecmp_eq
equal_ascii_ci a b = length a == length b && strcasecmp_eq a b

-- CR, LF and NUL are the bytes that are searched for.
abbrev pub is_safe_byte : ℕ → Bool
is_safe_byte c = not (c == 13 || c == 10 || c == 0)

unfoldable pub is_safe_header_component : Bytes → Bool
is_safe_header_component s = all is_safe_byte s
