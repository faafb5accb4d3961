-- ===== src/MapUtils/UrlEncode.antt =====
-- `append_url_encoded` of src/utils/map_utils.cpp against a reader of query strings.
use curlev.Prelude.{
  ℕ, ◌+◌, ◌-◌, ◌*◌, ◌/◌, ◌%◌, ◌<◌, ◌≡◌, refl, ap, sym, ◌∙◌, Bool, true, false, not, ◌&&◌, Option,
  none, some, [], ◌∷◌, ◌++◌, append_assoc, append-nil, arith, leb, ◌==◌, if◌then◌else◌, Bool-cases,
  inl, inr, all, all-append, All, Bytes,
}
use curlev.MapUtils.{is_unreserved, encoded, append_string_encoded, hex_digit}

abbrev hex_value : ℕ → ℕ
hex_value c = if leb c b'9' then c - b'0' else c - b'A' + 10

-- What a reader of percent-encoded text waits for.
pub data Mode : Type 0 where
  plain : Mode
  high : Mode
  low : ℕ → Mode

abbrev prepend : ℕ → Option Bytes → Option Bytes
prepend c none = none
prepend c (some s) = some (c ∷ s)

decode_from : Mode → Bytes → Option Bytes
decode_from plain [] = some []
decode_from high [] = none
decode_from (low d) [] = none
decode_from plain (c ∷ s) = elim (c == b'%') [
  | true ↦ decode_from high s
  | false ↦ prepend c (decode_from plain s)
]
decode_from high (c ∷ s) = decode_from (low (hex_value c)) s
decode_from (low d) (c ∷ s) = prepend (16 * d + hex_value c) (decode_from plain s)

-- The text that percent-encoded text stands for.
unfoldable pub url_decode : Bytes → Option Bytes
unfolding decode_from
url_decode s = decode_from plain s

-- What one byte is written as.
byte_encoded : ℕ → Bytes
byte_encoded c = if is_unreserved c then c ∷ [] else encoded c

pub url_encode : Bytes → Bytes
url_encode [] = []
url_encode (c ∷ s) = byte_encoded c ++ url_encode s

abbrev pub IsBytes : Bytes → Type 0
IsBytes = All (λ c. c < 256)

pub append_string_encoded_lem :
    (text s : Bytes) → append_string_encoded text s ≡ text ++ url_encode s
unfolding append_string_encoded url_encode byte_encoded
append_string_encoded_lem text [] = sym (append-nil text)
append_string_encoded_lem text (c ∷ s) = elim (Bool-cases (is_unreserved c)) [
  | inl e ↦ ground (
    arith,
    append_string_encoded_lem (text ++ (c ∷ [])) s,
    append_assoc text (c ∷ []) (url_encode s),
  )
  | inr e ↦ ground (
    arith,
    append_string_encoded_lem (text ++ encoded c) s,
    append_assoc text (encoded c) (url_encode s),
  )
]

hex_value-hex_digit : (d : ℕ) → d < 16 → hex_value (hex_digit d) ≡ d
hex_value-hex_digit d h = ground arith

decode-encoded :
    (c : ℕ) (s : Bytes)
    → c < 256
    → decode_from plain (encoded c ++ s) ≡ prepend c (decode_from plain s)
unfolding decode_from encoded
decode-encoded c s h = ground (arith, hex_value-hex_digit (c / 16), hex_value-hex_digit (c % 16))

decode-byte_encoded :
    (c : ℕ) (s : Bytes)
    → c < 256
    → decode_from plain (byte_encoded c ++ s) ≡ prepend c (decode_from plain s)
unfolding byte_encoded
decode-byte_encoded c s h = elim (Bool-cases (is_unreserved c)) [
  | inl e ↦ unfold decode_from in ground arith
  | inr e ↦ rw e (decode-encoded c s h)
]

pub decode-url_encode : (s : Bytes) → IsBytes s → url_decode (url_encode s) ≡ some s
unfolding url_decode url_encode
decode-url_encode [] h = refl
decode-url_encode (c ∷ s) (h, hs) =
    decode-byte_encoded c (url_encode s) h ∙ ap (prepend c) (decode-url_encode s hs)

-- Nothing that is written reads as one of the separators.
abbrev pub is_inert : ℕ → Bool
is_inert c = not (c == b'&') && not (c == b'=')

byte_encoded_inert : (c : ℕ) → c < 256 → all is_inert (byte_encoded c) ≡ true
unfolding byte_encoded encoded
byte_encoded_inert c h = ground arith

pub url_encode_inert : (s : Bytes) → IsBytes s → all is_inert (url_encode s) ≡ true
unfolding url_encode
url_encode_inert [] h = refl
url_encode_inert (c ∷ s) (h, hs) =
    rw (all-append is_inert (byte_encoded c) (url_encode s), byte_encoded_inert c h)
      (url_encode_inert s hs)
