-- ===== src/Authentication.antt =====
-- include/authentication.hpp and src/authentication.cpp: the credential of a transfer.
pub mod Apply
use curlev.Prelude.{Bool, true, false, List, [], ◌∷◌, if◌then◌else◌, same, Bytes, codes}
use curlev.StringUtils.{parse_cskv}
use curlev.Libcurl.{
  Libcurl, Easy, Setting, set_to, text, auth, auth_none, auth_basic, auth_digest, auth_bearer,
  httpauth, username, password, xoauth2_bearer,
}
use curlev.CurlUtils.{set_all, c_str}

pub data Mode : Type 0 where
  none basic digest bearer : Mode

pub record Authentication : Type 0 where
  pub mode : Mode
  pub user : Bytes
  pub secret : Bytes

-- The handler that `set` passes to `parse_cskv`.
pub set_credential : Authentication → Bytes → Bytes → Authentication × Bool
set_credential a key value =
    if same key (codes "mode")
    then (if same value (codes "bearer")
        then (record a { mode = bearer }, true)
        else if same value (codes "digest")
        then (record a { mode = digest }, true)
        else if same value (codes "basic")
        then (record a { mode = basic }, true)
        else if same value (codes "none")
        then (record a { mode = none }, true)
        else (a, false))
    else if same key (codes "user")
    then (record a { user = value }, true)
    else if same key (codes "secret")
    then (record a { secret = value }, true)
    else (a, false)

unfoldable pub set : Bytes → Authentication → Authentication × Bool
unfolding set_credential
set cskv a = parse_cskv set_credential cskv a

-- The settings that `apply` makes, by mode.
unfoldable pub settings : Mode → Bytes → Bytes → List Setting
settings none user secret = set_to httpauth (auth auth_none) ∷ []
settings basic user secret =
    set_to httpauth (auth auth_basic)
    ∷ set_to username (text (c_str user))
    ∷ set_to password (text (c_str secret))
    ∷ []
settings digest user secret =
    set_to httpauth (auth auth_digest)
    ∷ set_to username (text (c_str user))
    ∷ set_to password (text (c_str secret))
    ∷ []
settings bearer user secret =
    set_to httpauth (auth auth_bearer) ∷ set_to xoauth2_bearer (text (c_str secret)) ∷ []

unfoldable pub apply : Libcurl → Authentication → Easy → Easy × Bool
unfolding settings
apply lib a h = set_all lib h (settings a.mode a.user a.secret)

abbrev pub set_default : Authentication
set_default = record { mode = none; user = []; secret = [] }
