-- ===== src/CurlUtils.antt =====
-- include/utils/curl_utils.hpp and src/utils/curl_utils.cpp: options, lists and headers.
pub mod Settings
pub mod Headers
use curlev.Prelude.{
  ℕ, Bool, true, false, not, ◌||◌, Option, none, some, List, [], ◌∷◌, ◌++◌, ◌==◌, if◌then◌else◌,
  is_empty, and_then, Bytes, codes,
}
use curlev.StringUtils.{is_safe_header_component}
use curlev.Libcurl.{Libcurl, Easy, Setting}

-- std::string::c_str read as a C string: it ends at the first NUL.
abbrev pub c_str : Bytes → Bytes
c_str [] = []
c_str (c ∷ s) = if c == 0 then [] else c ∷ c_str s

module _ (lib : Libcurl) where
  -- `easy_setopt`: a setting that libcurl refuses leaves the handle as it was.
  abbrev pub easy_setopt : Easy → Setting → Easy × Bool
  easy_setopt h s = if lib.setopt h s then (s ∷ h, true) else (h, false)

  -- `ok = ok && easy_setopt( … )`, line after line.
  unfoldable pub set_all : Easy → List Setting → Easy × Bool
  set_all h [] = (h, true)
  set_all h (s ∷ ss) = and_then (easy_setopt h s) (λ k. set_all k ss)

  -- An empty list is nullptr.
  unfoldable pub curl_slist_checked_append : List Bytes → Bytes → List Bytes × Bool
  curl_slist_checked_append list s =
      if is_empty s then (list, false) else elim (lib.slist_append list (c_str s)) [
        | none ↦ (list, false)
        | some temp ↦ (temp, true)
      ]

  unfoldable pub curl_header_checked_append : List Bytes → Bytes → Bytes → List Bytes × Bool
  unfolding curl_slist_checked_append
  curl_header_checked_append headers key value =
      if not (is_safe_header_component key) || not (is_safe_header_component value)
      then (headers, false)
      else curl_slist_checked_append headers (key ++ (codes ": " ++ value))
