-- ===== src/Libcurl.antt =====
-- The part of libcurl that the sources call, as parameters. An easy handle is the log, newest
-- first, of the options that were set on it; whether libcurl takes a setting is a parameter, which
-- may depend on the log.
use curlev.Prelude.{
  ◌≡◌, ◌++◌, ℕ, Bool, Option, none, some, List, [], ◌∷◌, ◌==◌, if◌then◌else◌, Bytes,
}
use curlev.Prelude.Int.{ℤ}

-- The CURLOPT_ constants that the sources name.
pub data CurlOption : Type 0 where
  accept_encoding connecttimeout_ms cookiefile followlocation ssl_verifyhost : CurlOption
  ssl_verifypeer maxredirs proxy timeout_ms verbose mail_rcpt_allowfails : CurlOption
  httpauth username password xoauth2_bearer : CurlOption
  sslengine sslcert sslcerttype sslkey sslkeytype keypasswd cainfo capath : CurlOption
  proxy_sslcert proxy_sslcerttype proxy_sslkey proxy_sslkeytype proxy_keypasswd : CurlOption
  proxy_cainfo proxy_capath : CurlOption
  protocols_str redir_protocols_str upload infilesize_large : CurlOption
  customrequest url httpheader mimepost mail_from mail_rcpt : CurlOption
  readfunction readdata seekfunction seekdata writefunction writedata : CurlOption
  headerfunction headerdata share nosignal : CurlOption

-- A number for each option, by which two are compared.
abbrev pub index : CurlOption → ℕ
index accept_encoding = 0
index connecttimeout_ms = 1
index cookiefile = 2
index followlocation = 3
index ssl_verifyhost = 4
index ssl_verifypeer = 5
index maxredirs = 6
index proxy = 7
index timeout_ms = 8
index verbose = 9
index mail_rcpt_allowfails = 10
index httpauth = 11
index username = 12
index password = 13
index xoauth2_bearer = 14
index sslengine = 15
index sslcert = 16
index sslcerttype = 17
index sslkey = 18
index sslkeytype = 19
index keypasswd = 20
index cainfo = 21
index capath = 22
index proxy_sslcert = 23
index proxy_sslcerttype = 24
index proxy_sslkey = 25
index proxy_sslkeytype = 26
index proxy_keypasswd = 27
index proxy_cainfo = 28
index proxy_capath = 29
index protocols_str = 30
index redir_protocols_str = 31
index upload = 32
index infilesize_large = 33
index customrequest = 34
index url = 35
index httpheader = 36
index mimepost = 37
index mail_from = 38
index mail_rcpt = 39
index readfunction = 40
index readdata = 41
index seekfunction = 42
index seekdata = 43
index writefunction = 44
index writedata = 45
index headerfunction = 46
index headerdata = 47
index share = 48
index nosignal = 49

-- The arguments of curl_easy_setopt: nullptr, a C string, a number, one of the CURLAUTH_ values, a
-- list, a MIME handle, a callback of ASync, the wrapper itself, ASync's share handle.
pub data Auth : Type 0 where
  auth_none auth_basic auth_digest auth_bearer : Auth

pub data Callback : Type 0 where
  curl_cb_read curl_cb_seek curl_cb_write curl_cb_header : Callback

pub data Value : Type 0 where
  null : Value
  text : Bytes → Value
  long : ℤ → Value
  auth : Auth → Value
  slist : List Bytes → Value
  mime : Value
  function : Callback → Value
  this : Value
  share_handle : Value

pub record Setting : Type 0 where
  pub option : CurlOption
  pub value : Value

abbrev pub set_to : CurlOption → Value → Setting
set_to o v = record { option = o; value = v }

abbrev pub Easy : Type 0
Easy = List Setting

-- The value that an option has on the handle; `none` where it was never set.
unfoldable pub setting_of : Easy → CurlOption → Option Value
setting_of [] o = none
setting_of (s ∷ h) o = if index s.option == index o then some s.value else setting_of h o

-- The calls that build a MIME document, as a log, newest first. Those that begin with `sub` are
-- about the document of alternatives under construction; `name` to `filedata` are about the part
-- that was added last to the document, or to the alternatives.
pub data Target : Type 0 where
  part sub_part : Target

pub data MimeCall : Type 0 where
  addpart sub_init sub_addpart sub_free subparts : MimeCall
  name body kind filename filedata : Target → Bytes → MimeCall

-- What libcurl answers.
pub record Libcurl : Type 0 where
  pub setopt : Easy → Setting → Bool
  pub slist_append : List Bytes → Bytes → Option (List Bytes)
  pub mime_ok : List MimeCall → MimeCall → Bool
  -- Whether curl_mime_init gives a handle.
  pub mime_init : Easy → Bool

-- curl_slist_append puts the string at the end, or fails.
abbrev pub SlistAppends : Libcurl → Type 0
SlistAppends lib =
    (l : List Bytes) (s : Bytes) (l' : List Bytes)
    → lib.slist_append l s ≡ some l'
    → l' ≡ l ++ (s ∷ [])
