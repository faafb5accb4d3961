-- ===== src/Options.antt =====
-- include/options.hpp and src/options.cpp: the options of a transfer.
pub mod Set
pub mod Apply
use curlev.Prelude.{
  Bool, true, false, Option, none, some, List, [], ◌∷◌, if◌then◌else◌, is_empty, same, Bytes, codes,
}
use curlev.Prelude.Int.{ℤ, pos}
use curlev.StringUtils.{parse_cskv, svtol}
use curlev.Libcurl.{Libcurl, Easy, Setting, set_to, null, text, long}
use curlev.Libcurl.{
  accept_encoding, connecttimeout_ms, cookiefile, followlocation, ssl_verifyhost, ssl_verifypeer,
  maxredirs, timeout_ms, mail_rcpt_allowfails,
}
use curlev.Libcurl as Curl
use curlev.CurlUtils.{set_all, c_str}

pub record Options : Type 0 where
  pub accept_compression : Bool
  pub connect_timeout : ℤ
  pub cookies : Bool
  pub follow_location : ℤ
  pub insecure : Bool
  pub maxredirs : ℤ
  pub proxy : Bytes
  pub rcpt_allow_fails : Bool
  pub timeout : ℤ
  pub verbose : Bool

-- ok = svtol( value, member )
abbrev set_long : Options → Bytes → (ℤ → Options) → Options × Bool
set_long o value put = elim (svtol value) [ none ↦ (o, false) | some v ↦ (put v, true) ]

abbrev is_one : Bytes → Bool
is_one value = same value (codes "1")

-- The handler that `set` passes to `parse_cskv`.
unfoldable pub set_option : Options → Bytes → Bytes → Options × Bool
set_option o key value =
    if same key (codes "timeout")
    then set_long o value (λ v. record o { timeout = v })
    else if same key (codes "connect_timeout")
    then set_long o value (λ v. record o { connect_timeout = v })
    else if same key (codes "insecure")
    then (record o { insecure = is_one value }, true)
    else if same key (codes "follow_location")
    then set_long o value (λ v. record o { follow_location = v })
    else if same key (codes "maxredirs")
    then set_long o value (λ v. record o { maxredirs = v })
    else if same key (codes "proxy")
    then (record o { proxy = value }, true)
    else if same key (codes "cookies")
    then (record o { cookies = is_one value }, true)
    else if same key (codes "rcpt_allow_fails")
    then (record o { rcpt_allow_fails = is_one value }, true)
    else if same key (codes "accept_compression")
    then (record o { accept_compression = is_one value }, true)
    else if same key (codes "verbose")
    then (record o { verbose = is_one value }, true)
    else (o, false)

unfoldable pub set : Bytes → Options → Options × Bool
unfolding set_option
set cskv o = parse_cskv set_option cskv o

abbrev text_or_null : Bool → Bytes → Curl.Value
text_or_null b s = if b then text s else null

abbrev flag : Bool → Curl.Value
flag b = if b then long (pos 1) else long (pos 0)

-- The settings that `apply` makes, in order.
unfoldable pub settings : Options → List Setting
settings o =
    set_to accept_encoding (text_or_null o.accept_compression [])
    ∷ set_to connecttimeout_ms (long o.connect_timeout)
    ∷ set_to cookiefile (text_or_null o.cookies [])
    ∷ set_to followlocation (long o.follow_location)
    ∷ set_to ssl_verifyhost (if o.insecure then long (pos 0) else long (pos 2))
    ∷ set_to ssl_verifypeer (if o.insecure then long (pos 0) else long (pos 1))
    ∷ set_to Curl.maxredirs (long o.maxredirs)
    ∷ set_to Curl.proxy (if is_empty o.proxy then null else text (c_str o.proxy))
    ∷ set_to timeout_ms (long o.timeout)
    ∷ set_to Curl.verbose (flag o.verbose)
    ∷ set_to mail_rcpt_allowfails (flag o.rcpt_allow_fails)
    ∷ []

unfoldable pub apply : Libcurl → Options → Easy → Easy × Bool
unfolding settings
apply lib o h = set_all lib h (settings o)

abbrev c_timeout_ms : ℤ
c_timeout_ms = pos 30000

abbrev c_max_redirect : ℤ
c_max_redirect = pos 5

-- The members' initializers: what a wrapper holds before its first request.
abbrev pub initial : Options
initial = record {
  accept_compression = true;
  connect_timeout = pos 0;
  cookies = false;
  follow_location = pos 0;
  insecure = false;
  maxredirs = pos 0;
  proxy = [];
  rcpt_allow_fails = false;
  timeout = pos 0;
  verbose = false;
}

abbrev pub set_default : Options
set_default = record {
  accept_compression = true;
  connect_timeout = c_timeout_ms;
  cookies = false;
  follow_location = pos 0;
  insecure = false;
  maxredirs = c_max_redirect;
  proxy = [];
  rcpt_allow_fails = false;
  timeout = c_timeout_ms;
  verbose = false;
}
