-- ===== src/Authentication/Apply.antt =====
-- `Authentication::apply` of src/authentication.cpp: what each mode leaves on the handle.
use curlev.Prelude.{true, some, ◌≡◌, refl, Bytes}
use curlev.Libcurl.{
  Libcurl, Easy, setting_of, text, auth, auth_none, auth_basic, auth_digest, auth_bearer, httpauth,
  username, password, xoauth2_bearer,
}
use curlev.CurlUtils.{c_str}
use curlev.CurlUtils.Settings.{logged, set_all-logged}
use curlev.Authentication.{Authentication, Mode, none, basic, digest, bearer, settings, apply}

-- The user and the password that a handle offers.
abbrev Offers : Bytes → Bytes → Easy → Type 0
Offers user secret h =
    (setting_of h username ≡ some (text (c_str user)))
    × (setting_of h password ≡ some (text (c_str secret)))

abbrev SameOffer : Easy → Easy → Type 0
SameOffer h h' =
    (setting_of h' username ≡ setting_of h username)
    × (setting_of h' password ≡ setting_of h password)

-- What is on the handle `h'` after `h` was given a credential.
abbrev pub Grants : Mode → Bytes → Bytes → Easy → Easy → Type 0
Grants none user secret h h' =
    (setting_of h' httpauth ≡ some (auth auth_none))
    × SameOffer h h'
    × (setting_of h' xoauth2_bearer ≡ setting_of h xoauth2_bearer)
Grants basic user secret h h' =
    (setting_of h' httpauth ≡ some (auth auth_basic))
    × Offers user secret h'
    × (setting_of h' xoauth2_bearer ≡ setting_of h xoauth2_bearer)
Grants digest user secret h h' =
    (setting_of h' httpauth ≡ some (auth auth_digest))
    × Offers user secret h'
    × (setting_of h' xoauth2_bearer ≡ setting_of h xoauth2_bearer)
Grants bearer user secret h h' =
    (setting_of h' httpauth ≡ some (auth auth_bearer))
    × SameOffer h h'
    × (setting_of h' xoauth2_bearer ≡ some (text (c_str secret)))

granted :
    (m : Mode) (user secret : Bytes) (h h' : Easy)
    → h' ≡ logged (settings m user secret) h
    → Grants m user secret h h'
unfolding setting_of settings
granted none user secret h h' e = rw e (refl, (refl, refl), refl)
granted basic user secret h h' e = rw e (refl, (refl, refl), refl)
granted digest user secret h h' e = rw e (refl, (refl, refl), refl)
granted bearer user secret h h' e = rw e (refl, (refl, refl), refl)

-- After a success the handle has the mode that the caller chose, with user and password in the
-- basic and digest modes and with the token in the bearer mode. In the modes none and bearer the
-- user and the password of an earlier transfer stay on the handle, and the token does in all modes
-- but bearer.
pub apply-Grants :
    (lib : Libcurl) (a : Authentication) (h h' : Easy)
    → apply lib a h ≡ (h', true)
    → Grants a.mode a.user a.secret h h'
unfolding apply
apply-Grants lib a h h' e =
    granted a.mode a.user a.secret h h'
      (set_all-logged lib h h' (settings a.mode a.user a.secret) e)
