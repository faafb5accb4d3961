-- ===== src/Certificates/Apply.antt =====
-- `Certificates::apply` of src/certificates.cpp: which CA a handle trusts.
use curlev.Prelude.{true, Option, some, ◌≡◌, Bytes, if◌then◌else◌, is_empty, ◌==◌, arith}
use curlev.Libcurl.{Libcurl, Easy, CurlOption, setting_of, text, null, index}
use curlev.Libcurl as Curl
use curlev.CurlUtils.{c_str}
use curlev.CurlUtils.Settings.{logged, logged-append, set_all-logged}
use curlev.Certificates.{
  Certificates, settings, own_settings, proxy_settings, easy_setopt_ca, apply,
}

-- The CA of a handle: the caller's, else the default, else what was there.
abbrev ca : Bytes → Bytes → Option Curl.Value → Option Curl.Value
ca value default before =
    if is_empty value
    then (if is_empty default then before else some (text (c_str default)))
    else some (text (c_str value))

abbrev own : Bytes → Option Curl.Value
own value = some (if is_empty value then null else text (c_str value))

-- What is on `h'` after `h` was given the certificates.
pub record Trusts (c : Certificates) (h h' : Easy) : Type 0 where
  pub info : setting_of h' Curl.cainfo ≡ ca c.cainfo c.ca_info_default (setting_of h Curl.cainfo)
  pub path : setting_of h' Curl.capath ≡ ca c.capath c.ca_path_default (setting_of h Curl.capath)
  pub proxy_info :
      setting_of h' Curl.proxy_cainfo
      ≡ ca c.proxy_cainfo c.ca_info_default (setting_of h Curl.proxy_cainfo)
  pub proxy_path :
      setting_of h' Curl.proxy_capath
      ≡ ca c.proxy_capath c.ca_path_default (setting_of h Curl.proxy_capath)
  pub cert : setting_of h' Curl.sslcert ≡ own c.sslcert
  pub key : setting_of h' Curl.sslkey ≡ own c.sslkey
  pub passwd : setting_of h' Curl.keypasswd ≡ own c.keypasswd
  pub engine : setting_of h' Curl.sslengine ≡ own c.engine
  pub proxy_cert : setting_of h' Curl.proxy_sslcert ≡ own c.proxy_sslcert
  pub proxy_key : setting_of h' Curl.proxy_sslkey ≡ own c.proxy_sslkey
  pub proxy_passwd : setting_of h' Curl.proxy_keypasswd ≡ own c.proxy_keypasswd

pub setting_of-ca :
    (o : CurlOption) (value default : Bytes) (h : Easy) (p : CurlOption)
    → setting_of (logged (easy_setopt_ca o value default) h) p
      ≡ (if index o == index p then ca value default (setting_of h p) else setting_of h p)
unfolding setting_of
setting_of-ca o value default h p = ground arith

-- The log under the settings of `c`, one group after another.
abbrev pub grouped : Certificates → Easy → Easy
grouped c h = logged (easy_setopt_ca Curl.proxy_capath c.proxy_capath c.ca_path_default) (
    logged (easy_setopt_ca Curl.proxy_cainfo c.proxy_cainfo c.ca_info_default) (
      logged (proxy_settings c) (
        logged (easy_setopt_ca Curl.capath c.capath c.ca_path_default) (
          logged (easy_setopt_ca Curl.cainfo c.cainfo c.ca_info_default)
            (logged (own_settings c) h)))))

pub logged-settings : (c : Certificates) (h : Easy) → logged (settings c) h ≡ grouped c h
unfolding settings
logged-settings c h = simp logged-append

trusted : (c : Certificates) (h : Easy) → Trusts c h (grouped c h)
unfolding setting_of
trusted c h = record {
  info = simp setting_of-ca;
  path = simp setting_of-ca;
  proxy_info = simp setting_of-ca;
  proxy_path = simp setting_of-ca;
  cert = simp setting_of-ca;
  key = simp setting_of-ca;
  passwd = simp setting_of-ca;
  engine = simp setting_of-ca;
  proxy_cert = simp setting_of-ca;
  proxy_key = simp setting_of-ca;
  proxy_passwd = simp setting_of-ca;
}

-- After a success the handle trusts the caller's CA, or else the default that is known, or else
-- the CA that was set on it before; and its own certificate, key, password and engine are the
-- caller's, or libcurl's defaults where the caller gave none. So it is for the proxy.
pub apply-Trusts :
    (lib : Libcurl) (c : Certificates) (h h' : Easy) → apply lib c h ≡ (h', true) → Trusts c h h'
unfolding apply
apply-Trusts lib c h h' e =
    rw (set_all-logged lib h h' (settings c) e, logged-settings c h) (trusted c h)
