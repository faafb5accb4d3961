-- ===== src/Transfer/Declared.antt =====
-- The length that a response declares: `curl_cb_header` and `curl_cb_write` of src/async.cpp.
use mathlib.Core.List.{reverse-cons, map-append}
use curlev.Prelude.{
  ℕ, ◌<◌, ◌≡◌, refl, ap, sym, ◌∙◌, Bool, true, false, not, ◌&&◌, [], ◌∷◌, ◌++◌, reverse, some,
  arith, ◌==◌, length, all, take-append, drop-append, Bytes, is_empty, subst,
}
use curlev.StringUtils.{find, find_if_not, trim, is_space, to_lower, svtoul}
use curlev.StringUtils.Trim.{trim_self, IsTrimmed}
use curlev.StringUtils.Case.{lowered, equal_ascii_ci_iff}
use curlev.Transfer.{Base, write_error, curl_cb_header, curl_cb_write, store_header, content_length}

find_if_not-lowered : (s : Bytes) → find_if_not is_space (lowered s) ≡ find_if_not is_space s
find_if_not-lowered [] = refl
find_if_not-lowered (c ∷ s) = ground (arith, find_if_not-lowered s)

reverse-lowered : (s : Bytes) → reverse (lowered s) ≡ lowered (reverse s)
reverse-lowered [] = refl
reverse-lowered (c ∷ s) =
    rw (reverse-cons (to_lower c) (lowered s), reverse-cons c s, reverse-lowered s)
      (sym (map-append to_lower (reverse s) (c ∷ [])))

IsTrimmed-lowered : (s : Bytes) → IsTrimmed is_space (lowered s) → IsTrimmed is_space s
IsTrimmed-lowered s (t, u) = (
  sym (find_if_not-lowered s) ∙ t,
  sym (find_if_not-lowered (reverse s)) ∙ ap (find_if_not is_space) (sym (reverse-lowered s)) ∙ u,
)

-- A name that holds neither a colon nor a NUL.
abbrev is_plain : ℕ → Bool
is_plain c = not (c == b':') && not (c == 0)

plain-lowered : (s : Bytes) → all is_plain (lowered s) ≡ all is_plain s
plain-lowered [] = refl
plain-lowered (c ∷ s) = ground (arith, plain-lowered s)

find-colon : (s t : Bytes) → all is_plain s ≡ true → find b':' (s ++ (b':' ∷ t)) ≡ some (length s)
find-colon [] t h = refl
find-colon (c ∷ s) t h = ground (arith, find-colon s t)

no_nul : (s : Bytes) → all is_plain s ≡ true → all (λ c. not (c == 0)) s ≡ true
no_nul [] h = refl
no_nul (c ∷ s) h = ground (arith, no_nul s)

not_empty : (s : Bytes) → lowered s ≡ content_length → is_empty s ≡ false
not_empty [] e = cc
not_empty (c ∷ s) e = refl

-- A header `Content-Length`, in whatever capitals, is remembered as the declared length.
declares :
    (key value : Bytes) (n : ℕ) (b : Base)
    → lowered key ≡ content_length
    → svtoul (trim is_space value) ≡ some n
    → (curl_cb_header (key ++ (b':' ∷ value)) b).0.header_content_length ≡ n
unfolding curl_cb_header store_header
declares key value n b e v =
    let plain : all is_plain key ≡ true = sym (plain-lowered key) ∙ ap (all is_plain) e in
    let key_trimmed =
      trim_self is_space key
        (IsTrimmed-lowered key (subst (IsTrimmed is_space) (sym e) (refl, refl))) in
    ground (
      arith,
      find-colon key value plain,
      take-append key (b':' ∷ value),
      drop-append key b':' value,
      key_trimmed,
      not_empty key e,
      (equal_ascii_ci_iff key content_length (no_nul key plain)).1 (e ∙ refl),
    )

-- A response that declares a length above the limit is refused at its first bytes, and nothing of
-- it is stored. The capitals of the header's name do not matter.
declared_too_long :
    (can_hold : ℕ → Bool) (max size nmemb n : ℕ) (chunk key value : Bytes) (b : Base)
    → lowered key ≡ content_length
    → svtoul (trim is_space value) ≡ some n
    → max < n
    → curl_cb_write can_hold max size nmemb chunk (curl_cb_header (key ++ (b':' ∷ value)) b).0
      ≡ ((curl_cb_header (key ++ (b':' ∷ value)) b).0, write_error)
unfolding curl_cb_write
declared_too_long can_hold max size nmemb n chunk key value b e v big =
    ground (arith, declares key value n b e v)
