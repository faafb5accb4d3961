-- ===== src/CurlUtils/Settings.antt =====
-- `easy_setopt` of include/utils/curl_utils.hpp, line after line.
use curlev.Prelude.{true, List, [], ◌∷◌, ◌++◌, ◌≡◌, refl, arith, Bool-cases, inl, inr}
use curlev.Libcurl.{Libcurl, Easy, Setting}
use curlev.CurlUtils.{set_all}

-- The log under settings that were all taken.
abbrev pub logged : List Setting → Easy → Easy
logged [] h = h
logged (s ∷ ss) h = logged ss (s ∷ h)

pub logged-append :
    (ss ts : List Setting) (h : Easy) → logged (ss ++ ts) h ≡ logged ts (logged ss h)
logged-append [] ts h = refl
logged-append (s ∷ ss) ts h = logged-append ss ts (s ∷ h)

pub set_all-logged :
    (lib : Libcurl) (h h' : Easy) (ss : List Setting)
    → set_all lib h ss ≡ (h', true)
    → h' ≡ logged ss h
unfolding set_all
set_all-logged lib h h' [] e = ground arith
set_all-logged lib h h' (s ∷ ss) e = elim (Bool-cases (lib.setopt h s)) [
  | inl taken ↦ set_all-logged lib (s ∷ h) h' ss (rw taken at e)
  | inr refused ↦ ground arith
]
