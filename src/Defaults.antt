-- ===== src/Defaults.antt =====
-- The default options, credential and certificates that ASync keeps: src/async.cpp. The shared
-- mutex makes each of these calls one step.
use curlev.Prelude.{Bool, Option, none, some, [], Bytes, if◌then◌else◌}
use curlev.Options
use curlev.Options.{Options}
use curlev.Authentication
use curlev.Authentication.{Authentication}
use curlev.Certificates
use curlev.Certificates.{Certificates}

pub record Defaults : Type 0 where
  pub options : Options
  pub authentication : Authentication
  pub certificates : Certificates

-- ASync::options, ASync::authentication, ASync::certificates
unfoldable pub set_options : Bytes → Defaults → Defaults × Bool
set_options s d = let (o, ok) = Options.set s d.options in (record d { options = o }, ok)

unfoldable pub set_authentication : Bytes → Defaults → Defaults × Bool
set_authentication s d =
    let (a, ok) = Authentication.set s d.authentication in (record d { authentication = a }, ok)

unfoldable pub set_certificates : Bytes → Defaults → Defaults × Bool
set_certificates s d =
    let (c, ok) = Certificates.set s d.certificates in (record d { certificates = c }, ok)

-- What `start` sets, with the CA that libcurl reported.
abbrev pub at_start : Bytes → Bytes → Defaults
at_start ca_info ca_path = record {
  options = Options.set_default;
  authentication = Authentication.set_default;
  certificates = Certificates.set_default ca_info ca_path;
}

-- What curl_easy_getinfo gives for CURLINFO_CAINFO or CURLINFO_CAPATH: an error, or a string that
-- may be nullptr.
pub data Ca : Type 0 where
  ca_error : Ca
  ca_null : Ca
  ca_at : Bytes → Ca

abbrev pub ca_string : Ca → Option Bytes
ca_string ca_error = none
ca_string ca_null = some []
ca_string (ca_at s) = some s

abbrev ca_pair : Option Bytes → Option Bytes → Option (Bytes × Bytes)
ca_pair (some info) (some path) = some (info, path)
ca_pair (some info) none = none
ca_pair none path = none

-- `init_ok`: curl_easy_init gives a handle. None where it returns false, which leaves m_global_ca_info
-- and m_global_ca_path as they were.
unfoldable pub get_default_ca : Bool → Ca → Ca → Option (Bytes × Bytes)
get_default_ca init_ok info path =
    if init_ok then ca_pair (ca_string info) (ca_string path) else none

-- The defaults after `start`, whose first initialization of libcurl has asked for the CA.
abbrev pub started_with : Option (Bytes × Bytes) → Bytes × Bytes → Defaults
started_with (some (info, path)) old = at_start info path
started_with none (info, path) = at_start info path

-- ASync::get_default
unfoldable pub get_default : Defaults → Options × Authentication × Certificates
get_default d = (d.options, d.authentication, d.certificates)
