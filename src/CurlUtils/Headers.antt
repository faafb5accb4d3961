-- ===== src/CurlUtils/Headers.antt =====
-- No header injection: src/utils/curl_utils.cpp.
use curlev.Prelude.{
  ◌⊎◌, true, false, List, [], ◌∷◌, ◌++◌, ◌≡◌, refl, arith, Bool-cases, inl, inr, all, all-append,
  Bytes, codes, is_empty, Option-cases,
}
use curlev.StringUtils.{is_safe_header_component, is_safe_byte}
use curlev.Libcurl.{Libcurl, SlistAppends}
use curlev.CurlUtils.{c_str, curl_slist_checked_append, curl_header_checked_append}

c_str_safe : (s : Bytes) → all is_safe_byte s ≡ true → c_str s ≡ s
c_str_safe [] h = refl
c_str_safe (c ∷ s) h = ground (arith, c_str_safe s)

abbrev pub line : Bytes → Bytes → Bytes
line key value = key ++ (codes ": " ++ value)

-- No CR, LF or NUL in any line.
abbrev pub AreSafe : List Bytes → Type 0
AreSafe headers = all (all is_safe_byte) headers ≡ true

line_safe :
    (key value : Bytes)
    → is_safe_header_component key ≡ true
    → is_safe_header_component value ≡ true
    → all is_safe_byte (line key value) ≡ true
unfolding is_safe_header_component
line_safe key value hk hv = rw (all-append is_safe_byte key (codes ": " ++ value), hk) hv

line_not_empty : (key value : Bytes) → is_empty (line key value) ≡ false
line_not_empty [] value = refl
line_not_empty (c ∷ key) value = refl

pub AreSafe-append :
    (headers : List Bytes) (s : Bytes)
    → AreSafe headers
    → all is_safe_byte s ≡ true
    → AreSafe (headers ++ (s ∷ []))
AreSafe-append headers s h hs =
    rw (all-append (all is_safe_byte) headers (s ∷ []), h) (ground arith)

module _ (lib : Libcurl) (appends : SlistAppends lib) where
  pub checked_append_cases :
      (list : List Bytes) (s : Bytes)
      → (curl_slist_checked_append lib list s ≡ (list, false))
        ⊎ ((curl_slist_checked_append lib list s ≡ (list ++ (c_str s ∷ []), true))
            × (is_empty s ≡ false))
  unfolding curl_slist_checked_append
  checked_append_cases list [] = inl refl
  checked_append_cases list (c ∷ s) = elim (Option-cases (lib.slist_append list (c_str (c ∷ s)))) [
    | inl e ↦ inl (ground arith)
    | inr (l, e) ↦ inr (ground (arith, appends list (c_str (c ∷ s)) l e), refl)
  ]

  -- A header either fails, and the list stays as it was, or its two parts hold no CR, LF or NUL
  -- and one line `key: value` is added. A part that holds one of these bytes always fails.
  pub header_append_cases :
      (headers : List Bytes) (key value : Bytes)
      → (curl_header_checked_append lib headers key value ≡ (headers, false))
        ⊎ ((curl_header_checked_append lib headers key value
              ≡ (headers ++ (line key value ∷ []), true))
            × (is_safe_header_component key ≡ true)
            × (is_safe_header_component value ≡ true))
  unfolding curl_header_checked_append
  header_append_cases headers key value = elim (Bool-cases (is_safe_header_component key)) [
    | inr e ↦ inl (ground arith)
    | inl k ↦ elim (Bool-cases (is_safe_header_component value)) [
      | inr e ↦ inl (ground arith)
      | inl v ↦ elim (checked_append_cases headers (line key value)) [
        | inl e ↦ inl (ground arith)
        | inr (e, _) ↦
            inr (ground (arith, c_str_safe (line key value) (line_safe key value k v)), k, v)
      ]
    ]
  ]

  -- So a list of safe lines stays one.
  pub header_append-AreSafe :
      (headers : List Bytes) (key value : Bytes)
      → AreSafe headers
      → AreSafe (curl_header_checked_append lib headers key value).0
  header_append-AreSafe headers key value h = elim (header_append_cases headers key value) [
    | inl e ↦ rw e h
    | inr (e, k, v) ↦ rw e (AreSafe-append headers (line key value) h (line_safe key value k v))
  ]
