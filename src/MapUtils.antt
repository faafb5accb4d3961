-- ===== src/MapUtils.antt =====
-- include/utils/map_utils.hpp and src/utils/map_utils.cpp: the hash of header names, the header
-- map, and the encoding of parameters. An unordered_map is the list of its pairs in the order in
-- which it is walked.
pub mod Hash
pub mod UrlEncode
pub mod Query
use curlev.Prelude.{
  ℕ, ◌+◌, ◌-◌, ◌*◌, ◌/◌, ◌%◌, ◌^◌, Bool, ◌||◌, ◌&&◌, List, [], ◌∷◌, ◌++◌, ltb, leb, ◌==◌,
  if◌then◌else◌, Bytes, Option, none, some,
}
use curlev.StringUtils.{to_lower, equal_ascii_ci, ulong_mod}

abbrev pub KeyValues : Type 0
KeyValues = List (Bytes × Bytes)

-- The loop of hash_ci::operator()( p_key ), in `size_t`.
hash_ci_loop : ℕ → Bytes → ℕ
hash_ci_loop hash [] = hash
hash_ci_loop hash (c ∷ s) = hash_ci_loop ((31 * hash + to_lower c) % ulong_mod) s

unfoldable pub hash_ci : Bytes → ℕ
unfolding hash_ci_loop
hash_ci key = hash_ci_loop 0 key

-- The map takes two keys for one if the two functors of hash_ci say so.
unfoldable pub same_key : Bytes → Bytes → Bool
unfolding hash_ci
same_key a b = hash_ci a == hash_ci b && equal_ascii_ci a b

-- key_values_ci::insert_or_assign. The key that is there first is kept.
pub insert_or_assign : Bytes → Bytes → KeyValues → KeyValues
unfolding same_key
insert_or_assign key value [] = (key, value) ∷ []
insert_or_assign key value ((k, v) ∷ m) =
    if same_key k key then (k, value) ∷ m else (k, v) ∷ insert_or_assign key value m

-- key_values_ci::find
pub lookup_ci : Bytes → KeyValues → Option Bytes
unfolding same_key
lookup_ci key [] = none
lookup_ci key ((k, v) ∷ m) = if same_key k key then some v else lookup_ci key m

abbrev pub is_alnum : ℕ → Bool
is_alnum c =
    (leb b'0' c && leb c b'9') || ((leb b'A' c && leb c b'Z') || (leb b'a' c && leb c b'z'))

abbrev pub is_unreserved : ℕ → Bool
is_unreserved c = is_alnum c || (c == b'-' || (c == b'.' || (c == b'_' || c == b'~')))

abbrev pub hex_digit : ℕ → ℕ
hex_digit d = if ltb d 10 then b'0' + d else b'A' + (d - 10)

-- Row `c` of the table `encoded`.
pub encoded : ℕ → Bytes
encoded c = b'%' ∷ hex_digit (c / 16) ∷ hex_digit (c % 16) ∷ []

pub append_string_encoded : Bytes → Bytes → Bytes
unfolding encoded
append_string_encoded text [] = text
append_string_encoded text (c ∷ s) =
    append_string_encoded (if is_unreserved c then text ++ (c ∷ []) else text ++ encoded c) s

-- A separator of 0 adds nothing.
abbrev pub append_separator : Bytes → ℕ → Bytes
append_separator text separator = if separator == 0 then text else text ++ (separator ∷ [])

pub append_parameters : Bytes → KeyValues → ℕ → ℕ → Bytes
unfolding append_string_encoded
append_parameters text [] separator subsequent = text
append_parameters text ((key, value) ∷ ps) separator subsequent =
    append_parameters
      (append_string_encoded
        (append_string_encoded (append_separator text separator) key ++ (b'=' ∷ [])) value)
      ps subsequent subsequent

unfoldable pub append_url_encoded : Bytes → KeyValues → ℕ → ℕ → Bytes
unfolding append_parameters
append_url_encoded text parameters first_separator subsequent_separator =
    append_parameters text parameters first_separator subsequent_separator
