-- ===== src/Options/Apply.antt =====
-- `Options::apply` of src/options.cpp: what is on the handle once all settings were taken.
use curlev.Prelude.{true, some, [], ◌≡◌, refl, if◌then◌else◌, is_empty}
use curlev.Prelude.Int.{pos}
use curlev.Libcurl.{Libcurl, Easy, setting_of, null, text, long}
use curlev.Libcurl as Curl
use curlev.CurlUtils.{c_str}
use curlev.CurlUtils.Settings.{set_all-logged}
use curlev.Options.{Options, settings, apply}

-- What a handle is to have for the options of a transfer.
pub record Holds (o : Options) (h : Easy) : Type 0 where
  pub verifies_host :
      setting_of h Curl.ssl_verifyhost ≡ some (if o.insecure then long (pos 0) else long (pos 2))
  pub verifies_peer :
      setting_of h Curl.ssl_verifypeer ≡ some (if o.insecure then long (pos 0) else long (pos 1))
  pub times_out : setting_of h Curl.timeout_ms ≡ some (long o.timeout)
  pub connects_within : setting_of h Curl.connecttimeout_ms ≡ some (long o.connect_timeout)
  pub follows : setting_of h Curl.followlocation ≡ some (long o.follow_location)
  pub redirects : setting_of h Curl.maxredirs ≡ some (long o.maxredirs)
  pub through :
      setting_of h Curl.proxy ≡ some (if is_empty o.proxy then null else text (c_str o.proxy))
  pub encodes :
      setting_of h Curl.accept_encoding ≡ some (if o.accept_compression then text [] else null)
  pub keeps_cookies : setting_of h Curl.cookiefile ≡ some (if o.cookies then text [] else null)
  pub logs : setting_of h Curl.verbose ≡ some (if o.verbose then long (pos 1) else long (pos 0))
  pub allows_fails :
      setting_of h Curl.mail_rcpt_allowfails
      ≡ some (if o.rcpt_allow_fails then long (pos 1) else long (pos 0))

-- After a success every option of the transfer stands on the handle with the value that the
-- caller chose, whatever was set on the handle before.
pub apply-Holds :
    (lib : Libcurl) (o : Options) (h h' : Easy) → apply lib o h ≡ (h', true) → Holds o h'
unfolding apply setting_of
apply-Holds lib o h h' e = rw (set_all-logged lib h h' (settings o) e) (record {
  verifies_host = refl;
  verifies_peer = refl;
  times_out = refl;
  connects_within = refl;
  follows = refl;
  redirects = refl;
  through = refl;
  encodes = refl;
  keeps_cookies = refl;
  logs = refl;
  allows_fails = refl;
})
