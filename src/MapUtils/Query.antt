-- ===== src/MapUtils/Query.antt =====
-- Parameters that `append_url_encoded` of src/utils/map_utils.cpp writes, read back.
use curlev.Prelude.{
  ℕ, suc, ◌≡◌, ◌≢◌, refl, ◌∙◌, true, not, Option, none, some, List, [], ◌∷◌, ◌++◌, append_assoc,
  arith, ◌==◌, length, take, drop, all, all-append, All, take-append, drop-append, Bytes,
}
use curlev.StringUtils.{find}
use curlev.StringUtils.Fields.{fields, fields-append, fields_one}
use curlev.MapUtils.{
  KeyValues, append_string_encoded, append_separator, append_parameters, append_url_encoded,
}
use curlev.MapUtils.UrlEncode.{
  url_encode, url_decode, decode-url_encode, IsBytes, url_encode_inert, is_inert,
  append_string_encoded_lem,
}

abbrev pub ampersand : ℕ
ampersand = b'&'

abbrev equal_sign : ℕ
equal_sign = b'='

abbrev pair_of : Option Bytes → Option Bytes → Option (Bytes × Bytes)
pair_of none v = none
pair_of (some k) none = none
pair_of (some k) (some v) = some (k, v)

-- One `name=value`, decoded.
read_pair : Bytes → Option (Bytes × Bytes)
read_pair f = elim (find equal_sign f) [
  | none ↦ none
  | some n ↦ pair_of (url_decode (take n f)) (url_decode (drop (suc n) f))
]

abbrev cons_pair : Option (Bytes × Bytes) → Option KeyValues → Option KeyValues
cons_pair none ps = none
cons_pair (some p) none = none
cons_pair (some p) (some ps) = some (p ∷ ps)

read_pairs : List Bytes → Option KeyValues
read_pairs [] = some []
read_pairs (f ∷ fs) = cons_pair (read_pair f) (read_pairs fs)

-- What a server reads out of a query string.
pub parse_query : Bytes → Option KeyValues
parse_query q = read_pairs (fields ampersand q)

write_pair : Bytes × Bytes → Bytes
write_pair p = url_encode p.0 ++ (equal_sign ∷ url_encode p.1)

write_query : KeyValues → Bytes
write_query [] = []
write_query (p ∷ []) = write_pair p
write_query (p ∷ q ∷ ps) = write_pair p ++ (ampersand ∷ write_query (q ∷ ps))

abbrev pub IsBytePair : Bytes × Bytes → Type 0
IsBytePair p = IsBytes p.0 × IsBytes p.1

find_inert :
    (s t : Bytes)
    → all is_inert s ≡ true
    → find equal_sign (s ++ (equal_sign ∷ t)) ≡ some (length s)
find_inert [] t h = ground arith
find_inert (c ∷ s) t h = ground (arith, find_inert s t)

read_pair-write_pair : (p : Bytes × Bytes) → IsBytePair p → read_pair (write_pair p) ≡ some p
unfolding write_pair read_pair
read_pair-write_pair (k, v) (hk, hv) = rw (
  find_inert (url_encode k) (url_encode v) (url_encode_inert k hk),
  read_pair,
  take-append (url_encode k) (equal_sign ∷ url_encode v),
  drop-append (url_encode k) equal_sign (url_encode v),
  decode-url_encode k hk,
  decode-url_encode v hv,
)

no_ampersand : (s : Bytes) → all is_inert s ≡ true → all (λ c. not (c == ampersand)) s ≡ true
no_ampersand [] h = refl
no_ampersand (c ∷ s) h = ground (arith, no_ampersand s)

write_pair_plain :
    (p : Bytes × Bytes) → IsBytePair p → all (λ c. not (c == ampersand)) (write_pair p) ≡ true
unfolding write_pair
write_pair_plain (k, v) (hk, hv) =
    rw
      (
        all-append (λ c. not (c == ampersand)) (url_encode k) (equal_sign ∷ url_encode v),
        no_ampersand (url_encode k) (url_encode_inert k hk),
      )
      (no_ampersand (url_encode v) (url_encode_inert v hv))

fields_single :
    (f : Bytes) → f ≢ [] → all (λ c. not (c == ampersand)) f ≡ true → fields ampersand f ≡ f ∷ []
fields_single [] n h = absurd (n refl)
fields_single (c ∷ s) n h = fields_one ampersand c s h

append-ne-nil : (s t : Bytes) (c : ℕ) → s ++ (c ∷ t) ≢ []
append-ne-nil [] t c e = cc
append-ne-nil (d ∷ s) t c e = cc

read_pairs-write_query :
    (ps : KeyValues) → All IsBytePair ps → read_pairs (fields ampersand (write_query ps)) ≡ some ps
unfolding read_pairs write_query
read_pairs-write_query [] h = unfold fields in refl
read_pairs-write_query (p ∷ []) (h, hs) = rw (
  fields_single (write_pair p)
      (unfold write_pair in append-ne-nil (url_encode p.0) (url_encode p.1) equal_sign)
      (write_pair_plain p h),
  read_pair-write_pair p h,
)
read_pairs-write_query (p ∷ q ∷ ps) (h, hs) = rw (
  fields-append ampersand (write_pair p) (write_query (q ∷ ps)) (write_pair_plain p h),
  read_pair-write_pair p h,
  read_pairs-write_query (q ∷ ps) hs,
)

append_pair :
    (text : Bytes) (separator : ℕ) (p : Bytes × Bytes)
    → append_string_encoded
        (append_string_encoded (append_separator text separator) p.0 ++ (equal_sign ∷ []))
        p.1
      ≡ append_separator text separator ++ write_pair p
unfolding write_pair
append_pair text separator p =
    let t = append_separator text separator in
    rw
      (
        append_string_encoded_lem t p.0,
        append_string_encoded_lem ((t ++ url_encode p.0) ++ (equal_sign ∷ [])) p.1,
      )
      (simp append_assoc)

append_parameters-write_query :
    (text : Bytes) (p : Bytes × Bytes) (ps : KeyValues) (separator : ℕ)
    → append_parameters text (p ∷ ps) separator ampersand
      ≡ append_separator text separator ++ write_query (p ∷ ps)
unfolding append_parameters write_query
append_parameters-write_query text p [] separator = append_pair text separator p
append_parameters-write_query text p (q ∷ ps) separator = rw (append_pair text separator p) (
    append_parameters-write_query (append_separator text separator ++ write_pair p) q ps ampersand
    ∙ simp append_assoc)

-- Parameters are appended behind the first separator as a query string from which a reader gets
-- all of them back, names and values, in order, whatever bytes they hold.
pub append_url_encoded-parse_query :
    (text : Bytes) (p : Bytes × Bytes) (ps : KeyValues) (first : ℕ)
    → All IsBytePair (p ∷ ps)
    → (q : Bytes) × (append_url_encoded text (p ∷ ps) first ampersand
        ≡ append_separator text first ++ q)
      × (parse_query q ≡ some (p ∷ ps))
unfolding append_url_encoded parse_query
append_url_encoded-parse_query text p ps first h = (
  write_query (p ∷ ps),
  append_parameters-write_query text p ps first,
  read_pairs-write_query (p ∷ ps) h,
)
