-- ===== src/Certificates.antt =====
-- include/certificates.hpp and src/certificates.cpp: the certificates of a transfer.
pub mod Apply
use curlev.Prelude.{
  Bool, true, false, List, [], ◌∷◌, ◌++◌, if◌then◌else◌, is_empty, same, Bytes, codes,
}
use curlev.StringUtils.{parse_cskv}
use curlev.Libcurl.{Libcurl, Easy, Setting, CurlOption, set_to, text, null}
use curlev.Libcurl as Curl
use curlev.CurlUtils.{set_all, c_str}

pub record Certificates : Type 0 where
  pub engine : Bytes
  pub sslcert : Bytes
  pub sslcerttype : Bytes
  pub sslkey : Bytes
  pub sslkeytype : Bytes
  pub keypasswd : Bytes
  pub cainfo : Bytes
  pub capath : Bytes
  pub proxy_sslcert : Bytes
  pub proxy_sslcerttype : Bytes
  pub proxy_sslkey : Bytes
  pub proxy_sslkeytype : Bytes
  pub proxy_keypasswd : Bytes
  pub proxy_cainfo : Bytes
  pub proxy_capath : Bytes
  pub ca_info_default : Bytes
  pub ca_path_default : Bytes

-- The handler that `set` passes to `parse_cskv`.
pub set_certificate : Certificates → Bytes → Bytes → Certificates × Bool
set_certificate c key value =
    if same key (codes "sslcert")
    then (record c { sslcert = value }, true)
    else if same key (codes "sslcerttype")
    then (record c { sslcerttype = value }, true)
    else if same key (codes "sslkey")
    then (record c { sslkey = value }, true)
    else if same key (codes "sslkeytype")
    then (record c { sslkeytype = value }, true)
    else if same key (codes "keypasswd")
    then (record c { keypasswd = value }, true)
    else if same key (codes "cainfo")
    then (record c { cainfo = value }, true)
    else if same key (codes "capath")
    then (record c { capath = value }, true)
    else if same key (codes "proxy_sslcert")
    then (record c { proxy_sslcert = value }, true)
    else if same key (codes "proxy_sslcerttype")
    then (record c { proxy_sslcerttype = value }, true)
    else if same key (codes "proxy_sslkey")
    then (record c { proxy_sslkey = value }, true)
    else if same key (codes "proxy_sslkeytype")
    then (record c { proxy_sslkeytype = value }, true)
    else if same key (codes "proxy_keypasswd")
    then (record c { proxy_keypasswd = value }, true)
    else if same key (codes "proxy_cainfo")
    then (record c { proxy_cainfo = value }, true)
    else if same key (codes "proxy_capath")
    then (record c { proxy_capath = value }, true)
    else if same key (codes "engine")
    then (record c { engine = value }, true)
    else (c, false)

unfoldable pub set : Bytes → Certificates → Certificates × Bool
unfolding set_certificate
set cskv c = parse_cskv set_certificate cskv c

-- An empty text resets the option to libcurl's default.
abbrev pub easy_setopt_std : CurlOption → Bytes → Setting
easy_setopt_std o value = set_to o (if is_empty value then null else text (c_str value))

-- For a CA, the default is set again if it is known; otherwise nothing is done.
abbrev pub easy_setopt_ca : CurlOption → Bytes → Bytes → List Setting
easy_setopt_ca o value default =
    if is_empty value
    then (if is_empty default then [] else set_to o (text (c_str default)) ∷ [])
    else set_to o (text (c_str value)) ∷ []

abbrev pub own_settings : Certificates → List Setting
own_settings c =
    easy_setopt_std Curl.sslengine c.engine
    ∷ easy_setopt_std Curl.sslcert c.sslcert
    ∷ easy_setopt_std Curl.sslcerttype c.sslcerttype
    ∷ easy_setopt_std Curl.sslkey c.sslkey
    ∷ easy_setopt_std Curl.sslkeytype c.sslkeytype
    ∷ easy_setopt_std Curl.keypasswd c.keypasswd
    ∷ []

abbrev pub proxy_settings : Certificates → List Setting
proxy_settings c =
    easy_setopt_std Curl.proxy_sslcert c.proxy_sslcert
    ∷ easy_setopt_std Curl.proxy_sslcerttype c.proxy_sslcerttype
    ∷ easy_setopt_std Curl.proxy_sslkey c.proxy_sslkey
    ∷ easy_setopt_std Curl.proxy_sslkeytype c.proxy_sslkeytype
    ∷ easy_setopt_std Curl.proxy_keypasswd c.proxy_keypasswd
    ∷ []

-- The settings that `apply` makes, in order.
unfoldable pub settings : Certificates → List Setting
settings c =
    own_settings c
    ++ (easy_setopt_ca Curl.cainfo c.cainfo c.ca_info_default
        ++ (easy_setopt_ca Curl.capath c.capath c.ca_path_default
            ++ (proxy_settings c
                ++ (easy_setopt_ca Curl.proxy_cainfo c.proxy_cainfo c.ca_info_default
                    ++ easy_setopt_ca Curl.proxy_capath c.proxy_capath c.ca_path_default))))

unfoldable pub apply : Libcurl → Certificates → Easy → Easy × Bool
unfolding settings
apply lib c h = set_all lib h (settings c)

-- The defaults of the CA are those that ASync reads from libcurl when it starts.
abbrev pub set_default : Bytes → Bytes → Certificates
set_default ca_info ca_path = record {
  engine = [];
  sslcert = [];
  sslcerttype = [];
  sslkey = [];
  sslkeytype = [];
  keypasswd = [];
  cainfo = [];
  capath = [];
  proxy_sslcert = [];
  proxy_sslcerttype = [];
  proxy_sslkey = [];
  proxy_sslkeytype = [];
  proxy_keypasswd = [];
  proxy_cainfo = [];
  proxy_capath = [];
  ca_info_default = ca_info;
  ca_path_default = ca_path;
}
