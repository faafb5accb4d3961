-- ===== src/Building/Wires.antt =====
-- What is set on a handle after `create` leaves the callbacks of ASync as they are: the settings of
-- src/options.cpp, src/authentication.cpp, src/certificates.cpp, include/wrapper.hpp, src/http.cpp
-- and src/smtp.cpp.
use curlev.Prelude.{
  Bool, true, false, not, List, [], ◌∷◌, ◌≡◌, refl, arith, if◌then◌else◌, leb, ℕ, ◌==◌, all,
  all-append, Bytes, inl, inr, Bool-cases, none,
}
use curlev.Libcurl.{Libcurl, Easy, Setting, CurlOption, index, setting_of}
use curlev.CurlUtils.{set_all}
use curlev.Options
use curlev.Authentication
use curlev.Authentication.{Mode, none, basic, digest, bearer}
use curlev.Certificates
use curlev.Wrapper.{Wrapper, prepare_local, prepare_request_body}
use curlev.Mime.{Part}
use curlev.Building.Settings.{set_all-Stays, prepare_local-Stays, prepare_request_body-Stays}
use curlev.Building.{post_mime}

-- The options that `get_handle` sets.
abbrev pub is_wire : CurlOption → Bool
is_wire o = leb 40 (index o)

-- The part of the log that is about them.
abbrev pub wires : Easy → Easy
wires [] = []
wires (s ∷ h) = if is_wire s.option then s ∷ wires h else wires h

abbrev is_free : Setting → Bool
is_free s = not (is_wire s.option)

abbrev pub are_free : List Setting → Bool
are_free = all is_free

grows-wires :
    (x : Easy) (s : Setting) (h : Easy) → is_free s ≡ true → wires h ≡ x → wires (s ∷ h) ≡ x
grows-wires x s h a b = ground arith

pub set_all-wires :
    (lib : Libcurl) (x h : Easy) (ss : List Setting)
    → are_free ss ≡ true
    → wires h ≡ x
    → wires (set_all lib h ss).0 ≡ x
set_all-wires lib x = set_all-Stays (λ h. wires h ≡ x) is_free (grows-wires x) lib

options_free : (o : Options.Options) → are_free (Options.settings o) ≡ true
unfolding Options.settings
options_free o = refl

authentication_free :
    (m : Mode) (user secret : Bytes) → are_free (Authentication.settings m user secret) ≡ true
unfolding Authentication.settings
authentication_free none user secret = refl
authentication_free basic user secret = refl
authentication_free digest user secret = refl
authentication_free bearer user secret = refl

ca_free :
    (o : CurlOption) (v default : Bytes)
    → is_wire o ≡ false
    → are_free (Certificates.easy_setopt_ca o v default) ≡ true
ca_free o v default e = ground arith

certificates_free : (c : Certificates.Certificates) → are_free (Certificates.settings c) ≡ true
unfolding Certificates.settings
certificates_free c = simp (all-append, ca_free)

module _ {P : Type 0} (lib : Libcurl) (x : Easy) where
  pub prepare_local-wires :
      (w : Wrapper P) → wires w.curl ≡ x → wires (prepare_local lib w).0.curl ≡ x
  prepare_local-wires =
      prepare_local-Stays (λ h. wires h ≡ x) is_free (grows-wires x) lib options_free
        (λ a. authentication_free a.mode a.user a.secret) certificates_free λ w. refl

  pub prepare_request_body-wires :
      (w : Wrapper P) → wires w.curl ≡ x → wires (prepare_request_body lib w).0.curl ≡ x
  prepare_request_body-wires =
      prepare_request_body-Stays (λ h. wires h ≡ x) is_free (grows-wires x) lib λ w. refl

pub post_mime-wires :
    (lib : Libcurl) (x h : Easy) (parts : List Part)
    → wires h ≡ x
    → wires (post_mime lib h parts).0.1 ≡ x
unfolding post_mime
post_mime-wires lib x h parts s = ground arith

same_wire : (n m : ℕ) → (n == m) ≡ true → leb 40 m ≡ true → leb 40 n ≡ true
same_wire n m e h = ground arith

-- An option of `get_handle` is read from that part alone.
pub setting_of-wires :
    (h : Easy) (o : CurlOption) → is_wire o ≡ true → setting_of (wires h) o ≡ setting_of h o
unfolding setting_of
setting_of-wires [] o e = refl
setting_of-wires (s ∷ h) o e = elim (Bool-cases (index s.option == index o)) [
  | inl same ↦ rw (same, same_wire (index s.option) (index o) same e, same) refl
  | inr other ↦ elim (Bool-cases (leb 40 (index s.option))) [
    | inl wire ↦ rw (other, wire, other) (setting_of-wires h o e)
    | inr free ↦ rw (other, free) (setting_of-wires h o e)
  ]
]
