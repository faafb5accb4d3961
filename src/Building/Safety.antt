-- ===== src/Building/Safety.antt =====
-- No CR, LF or NUL reaches the header list of a handle: src/http.cpp and src/smtp.cpp.
use curlev.Prelude.{
  Bool, true, none, List, [], ◌∷◌, ◌≡◌, ◌==◌, refl, arith, if◌then◌else◌, all, all-append, Bytes,
}
use curlev.MapUtils.{KeyValues}
use curlev.StringUtils.{is_safe_byte}
use curlev.Libcurl.{
  Libcurl, SlistAppends, Easy, Setting, CurlOption, Value, null, text, long, auth, slist, mime,
  function, this, share_handle, index, httpheader,
}
use curlev.CurlUtils.{set_all, curl_header_checked_append}
use curlev.CurlUtils.Headers.{AreSafe, header_append-AreSafe}
use curlev.Options
use curlev.Authentication
use curlev.Authentication.{Mode, none, basic, digest, bearer}
use curlev.Certificates
use curlev.Wrapper.{Wrapper, prepare_local, prepare_request_body}
use curlev.Mime.{Part}
use curlev.Building.Settings.{set_all-Stays, prepare_local-Stays, prepare_request_body-Stays}
use curlev.Building.{append_headers, post_mime}

abbrev safe_value : CurlOption → Value → Bool
safe_value o (slist l) = if index o == index httpheader then all (all is_safe_byte) l else true
safe_value o null = true
safe_value o (text s) = true
safe_value o (long n) = true
safe_value o (auth a) = true
safe_value o mime = true
safe_value o (function f) = true
safe_value o this = true
safe_value o share_handle = true

abbrev pub safe_setting : Setting → Bool
safe_setting s = safe_value s.option s.value

-- Every header list that was ever set on the handle is safe.
abbrev pub IsSafe : Easy → Type 0
IsSafe h = all safe_setting h ≡ true

grows-IsSafe : (s : Setting) (h : Easy) → safe_setting s ≡ true → IsSafe h → IsSafe (s ∷ h)
grows-IsSafe s h a b = rw (a) b

pub set_all-IsSafe :
    (lib : Libcurl) (h : Easy) (ss : List Setting)
    → IsSafe ss
    → IsSafe h
    → IsSafe (set_all lib h ss).0
set_all-IsSafe = set_all-Stays IsSafe safe_setting grows-IsSafe

options-IsSafe : (o : Options.Options) → IsSafe (Options.settings o)
unfolding Options.settings
options-IsSafe o = ground arith

authentication-IsSafe :
    (m : Mode) (user secret : Bytes) → IsSafe (Authentication.settings m user secret)
unfolding Authentication.settings
authentication-IsSafe none user secret = refl
authentication-IsSafe basic user secret = refl
authentication-IsSafe digest user secret = refl
authentication-IsSafe bearer user secret = refl

std_safe : (o : CurlOption) (v : Bytes) → safe_setting (Certificates.easy_setopt_std o v) ≡ true
std_safe o v = ground arith

ca-IsSafe : (o : CurlOption) (v default : Bytes) → IsSafe (Certificates.easy_setopt_ca o v default)
ca-IsSafe o v default = ground arith

certificates-IsSafe : (c : Certificates.Certificates) → IsSafe (Certificates.settings c)
unfolding Certificates.settings
certificates-IsSafe c = simp (all-append, std_safe, ca-IsSafe)

module _ {P : Type 0} (lib : Libcurl) where
  pub prepare_local-IsSafe : (w : Wrapper P) → IsSafe w.curl → IsSafe (prepare_local lib w).0.curl
  prepare_local-IsSafe =
      prepare_local-Stays IsSafe safe_setting grows-IsSafe lib options-IsSafe
        (λ a. authentication-IsSafe a.mode a.user a.secret) certificates-IsSafe λ w. refl

  pub prepare_request_body-IsSafe :
      (w : Wrapper P) → IsSafe w.curl → IsSafe (prepare_request_body lib w).0.curl
  prepare_request_body-IsSafe =
      prepare_request_body-Stays IsSafe safe_setting grows-IsSafe lib λ w. refl

  pub prepare_request_body-protocol :
      (w : Wrapper P) → (prepare_request_body lib w).0.protocol ≡ w.protocol
  unfolding prepare_request_body
  prepare_request_body-protocol w = ground arith

  pub prepare_local-protocol : (w : Wrapper P) → (prepare_local lib w).0.protocol ≡ w.protocol
  unfolding prepare_local
  prepare_local-protocol w = ground arith

pub append_headers-AreSafe :
    (lib : Libcurl)
    → SlistAppends lib
    → (headers : List Bytes) (ps : KeyValues) → AreSafe headers
    → AreSafe (append_headers lib headers ps).0
unfolding append_headers
append_headers-AreSafe lib a headers [] h = h
append_headers-AreSafe lib a headers ((key, value) ∷ ps) h = ground (
  arith,
  header_append-AreSafe lib a headers key value,
  append_headers-AreSafe lib a (curl_header_checked_append lib headers key value).0 ps,
)

pub post_mime-IsSafe :
    (lib : Libcurl) (h : Easy) (parts : List Part) → IsSafe h → IsSafe (post_mime lib h parts).0.1
unfolding post_mime
post_mime-IsSafe lib h parts s = ground arith
