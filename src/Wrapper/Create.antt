-- ===== src/Wrapper/Create.antt =====
-- `create` of include/wrapper.hpp and ASync::get_handle of src/async.cpp.
use curlev.Prelude.{
  Bool, true, false, Option, none, some, List, [], ◌∷◌, Bytes, if◌then◌else◌, ◌≡◌, refl, ap, sym,
  ◌∙◌, subst,
}
use curlev.Prelude.Int.{pos}
use curlev.Libcurl.{
  Libcurl, Easy, Setting, Value, set_to, setting_of, long, function, this, share_handle,
  curl_cb_read, curl_cb_seek, curl_cb_write, curl_cb_header,
}
use curlev.Libcurl as Curl
use curlev.CurlUtils.{set_all}
use curlev.CurlUtils.Settings.{logged, set_all-logged}
use curlev.Wrapper.{Wrapper, State, create}

-- The options of a new handle: the callbacks, each with the wrapper for its argument, the shared
-- data, and no signals.
abbrev pub handle_settings : List Setting
handle_settings =
    set_to Curl.readfunction (function curl_cb_read)
    ∷ set_to Curl.readdata this
    ∷ set_to Curl.seekfunction (function curl_cb_seek)
    ∷ set_to Curl.seekdata this
    ∷ set_to Curl.writefunction (function curl_cb_write)
    ∷ set_to Curl.writedata this
    ∷ set_to Curl.headerfunction (function curl_cb_header)
    ∷ set_to Curl.headerdata this
    ∷ set_to Curl.share share_handle
    ∷ set_to Curl.nosignal (long (pos 1))
    ∷ []

abbrev checked : Easy × Bool → Option Easy
checked (h, true) = some h
checked (h, false) = none

-- `init_ok`: curl_easy_init gives a handle. None is nullptr.
unfoldable pub get_handle : Libcurl → Bool → Option Easy
get_handle lib init_ok = if init_ok then checked (set_all lib [] handle_settings) else none

abbrev owner : {P : Type 0} → Option Easy → P → Bytes → Option (Wrapper P)
owner none protocol safe = none
owner (some h) protocol safe = some (create h protocol safe)

-- `create`, where it does not throw bad_curl_easy_alloc.
unfoldable pub try_create : {P : Type 0} → Libcurl → Bool → P → Bytes → Option (Wrapper P)
unfolding get_handle
try_create lib init_ok protocol safe = owner (get_handle lib init_ok) protocol safe

-- The handle of a wrapper answers to that wrapper.
pub record IsWired (h : Easy) : Type 0 where
  pub reads :
      (setting_of h Curl.readfunction ≡ some (function curl_cb_read))
      × (setting_of h Curl.readdata ≡ some this)
  pub seeks :
      (setting_of h Curl.seekfunction ≡ some (function curl_cb_seek))
      × (setting_of h Curl.seekdata ≡ some this)
  pub writes :
      (setting_of h Curl.writefunction ≡ some (function curl_cb_write))
      × (setting_of h Curl.writedata ≡ some this)
  pub headers :
      (setting_of h Curl.headerfunction ≡ some (function curl_cb_header))
      × (setting_of h Curl.headerdata ≡ some this)
  pub shared : setting_of h Curl.share ≡ some share_handle
  pub silent : setting_of h Curl.nosignal ≡ some (long (pos 1))

logged-IsWired : IsWired (logged handle_settings [])
unfolding setting_of
logged-IsWired = record {
  reads = (refl, refl);
  seeks = (refl, refl);
  writes = (refl, refl);
  headers = (refl, refl);
  shared = refl;
  silent = refl;
}

value_of : {A : Type 0} → Option A → A → A
value_of none a = a
value_of (some b) a = b

missing : {A : Type 0} (a : A) → none ≡ some a → ⊥
missing a e = cc

checked_handle :
    (lib : Libcurl) (r : Easy × Bool) (h : Easy)
    → set_all lib [] handle_settings ≡ r
    → checked r ≡ some h
    → IsWired h
unfolding value_of
checked_handle lib (k, true) h q c =
    subst IsWired (sym (set_all-logged lib [] k handle_settings q) ∙ ap (λ o. value_of o k) c)
      logged-IsWired
checked_handle lib (k, false) h q c = absurd (missing h c)

pub get_handle-IsWired :
    (lib : Libcurl) (init_ok : Bool) (h : Easy) → get_handle lib init_ok ≡ some h → IsWired h
unfolding get_handle
get_handle-IsWired lib false h e = absurd (missing h e)
get_handle-IsWired lib true h e = checked_handle lib (set_all lib [] handle_settings) h refl e

-- What `create` promises.
pub record IsReady {P : Type 0} (safe : Bytes) (w : Wrapper P) : Type 0 where
  pub wired : IsWired w.curl
  pub idle : w.exec_state ≡ State.idle
  pub restricted : w.safe_protocols ≡ safe
  pub silent : (w.user_cb ≡ none) × (w.called ≡ [])
  pub patient : w.retries_max ≡ 0

owner-IsReady :
    {P : Type 0} (o : Option Easy) (protocol : P) (safe : Bytes) (w : Wrapper P)
    → ((h : Easy) → o ≡ some h → IsWired h)
    → owner o protocol safe ≡ some w
    → IsReady safe w
unfolding value_of
owner-IsReady none protocol safe w f e = absurd (missing w e)
owner-IsReady (some h) protocol safe w f e =
    subst (IsReady safe) (ap (λ o. value_of o w) e) (record {
      wired = f h refl;
      idle = refl;
      restricted = refl;
      silent = (refl, refl);
      patient = refl;
    })

-- A wrapper that `create` returns is idle, with no callback, restricted to the protocols of its
-- class and without retries; and its handle calls ASync's four callbacks, each for that wrapper,
-- shares ASync's data and takes no signals. When libcurl refuses one of these options, `create`
-- throws instead.
pub try_create-IsReady :
    {P : Type 0} (lib : Libcurl) (init_ok : Bool) (protocol : P) (safe : Bytes) (w : Wrapper P)
    → try_create lib init_ok protocol safe ≡ some w
    → IsReady safe w
unfolding try_create
try_create-IsReady lib init_ok protocol safe w e =
    owner-IsReady (get_handle lib init_ok) protocol safe w (λ h. get_handle-IsWired lib init_ok h) e
