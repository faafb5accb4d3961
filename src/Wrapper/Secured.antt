-- ===== src/Wrapper/Secured.antt =====
-- What `prepare_local` of include/wrapper.hpp leaves on the handle.
use curlev.Prelude.{
  Bool, true, false, none, some, List, ◌≡◌, refl, arith, and_then, if◌then◌else◌, ap, ◌∙◌, sym,
  Bytes,
}
use curlev.Prelude.Int.{ℤ, pos}
use curlev.Libcurl.{Libcurl, Easy, Setting, CurlOption, Value, setting_of, text, long}
use curlev.Libcurl as Curl
use curlev.CurlUtils.{set_all, c_str}
use curlev.CurlUtils.Settings.{logged, set_all-logged}
use curlev.Options
use curlev.Options.{Options}
use curlev.Authentication
use curlev.Authentication.{Mode, none, basic, digest, bearer}
use curlev.Certificates
use curlev.Certificates.{Certificates}
use curlev.Certificates.Apply.{logged-settings, setting_of-ca}
use curlev.Wrapper.Codes.{
  error_options_set, error_authentication_set, error_certificates_set, error_safe_protocols_set,
}
use curlev.Wrapper.{
  Wrapper, prepare_local, or_code, apply_authentication, apply_certificates, apply_safe_protocols,
  protocol_settings,
}

-- What a handle has to have for a transfer with these options and protocols.
pub record IsSecured (o : Options) (protocols : Bytes) (h : Easy) : Type 0 where
  pub peer :
      setting_of h Curl.ssl_verifypeer ≡ some (if o.insecure then long (pos 0) else long (pos 1))
  pub host :
      setting_of h Curl.ssl_verifyhost ≡ some (if o.insecure then long (pos 0) else long (pos 2))
  pub allowed : setting_of h Curl.protocols_str ≡ some (text (c_str protocols))
  pub redirected : setting_of h Curl.redir_protocols_str ≡ some (text (c_str protocols))
  pub within : setting_of h Curl.timeout_ms ≡ some (long o.timeout)

-- The handle after the four groups of settings.
abbrev pub all_set : {P : Type 0} → Wrapper P → Easy
all_set w = logged (protocol_settings w.safe_protocols) (
    logged (Certificates.settings w.certificates) (
      logged
        (Authentication.settings w.authentication.mode w.authentication.user
          w.authentication.secret)
        (logged (Options.settings w.options) w.curl)))

past_authentication :
    (m : Mode) (user secret : Bytes) (h : Easy)
    → (setting_of (logged (Authentication.settings m user secret) h) Curl.ssl_verifypeer
        ≡ setting_of h Curl.ssl_verifypeer)
      × (setting_of (logged (Authentication.settings m user secret) h) Curl.ssl_verifyhost
          ≡ setting_of h Curl.ssl_verifyhost)
      × (setting_of (logged (Authentication.settings m user secret) h) Curl.timeout_ms
          ≡ setting_of h Curl.timeout_ms)
unfolding setting_of Authentication.settings
past_authentication none user secret h = (refl, refl, refl)
past_authentication basic user secret h = (refl, refl, refl)
past_authentication digest user secret h = (refl, refl, refl)
past_authentication bearer user secret h = (refl, refl, refl)

past_certificates :
    (c : Certificates) (h : Easy)
    → (setting_of (logged (Certificates.settings c) h) Curl.ssl_verifypeer
        ≡ setting_of h Curl.ssl_verifypeer)
      × (setting_of (logged (Certificates.settings c) h) Curl.ssl_verifyhost
          ≡ setting_of h Curl.ssl_verifyhost)
      × (setting_of (logged (Certificates.settings c) h) Curl.timeout_ms
          ≡ setting_of h Curl.timeout_ms)
unfolding setting_of
past_certificates c h =
    rw (logged-settings c h) (simp setting_of-ca, simp setting_of-ca, simp setting_of-ca)

pub all_set-IsSecured :
    {P : Type 0} (w : Wrapper P) → IsSecured w.options w.safe_protocols (all_set w)
unfolding setting_of Options.settings
all_set-IsSecured w =
    let h1 = logged (Options.settings w.options) w.curl in
    let (pa, ha, ta) =
      past_authentication w.authentication.mode w.authentication.user w.authentication.secret h1 in
    let h2 =
      logged
        (Authentication.settings w.authentication.mode w.authentication.user
          w.authentication.secret)
        h1 in
    let (pc, hc, tc) = past_certificates w.certificates h2 in
    record { peer = pc ∙ pa; host = hc ∙ ha; allowed = refl; redirected = refl; within = tc ∙ ta }

module _ {P : Type 0} (lib : Libcurl) where
  or_code-logged :
      (code : ℤ) (w : Wrapper P) (ss : List Setting) (next : Wrapper P → Wrapper P × Bool)
      → (and_then (or_code code w (set_all lib w.curl ss)) next).1 ≡ true
      → and_then (or_code code w (set_all lib w.curl ss)) next
        ≡ next (record w { curl = logged ss w.curl })
  or_code-logged code w ss next e = go (set_all lib w.curl ss) refl e
    where
      go :
          (r : Easy × Bool)
          → set_all lib w.curl ss ≡ r
          → (and_then (or_code code w r) next).1 ≡ true
          → and_then (or_code code w r) next ≡ next (record w { curl = logged ss w.curl })
      go (h, true) q t =
          ap (λ (k : Easy). next (record w { curl = k })) (set_all-logged lib w.curl h ss q)
      go (h, false) q t = ground arith

  last_logged :
      (code : ℤ) (w : Wrapper P) (ss : List Setting)
      → (or_code code w (set_all lib w.curl ss)).1 ≡ true
      → (or_code code w (set_all lib w.curl ss)).0 ≡ record w { curl = logged ss w.curl }
  last_logged code w ss e = go (set_all lib w.curl ss) refl e
    where
      go :
          (r : Easy × Bool)
          → set_all lib w.curl ss ≡ r
          → (or_code code w r).1 ≡ true
          → (or_code code w r).0 ≡ record w { curl = logged ss w.curl }
      go (h, true) q t = ap (λ (k : Easy). record w { curl = k }) (set_all-logged lib w.curl h ss q)
      go (h, false) q t = ground arith

  pub prepare_local-all_set :
      (w : Wrapper P)
      → (prepare_local lib w).1 ≡ true
      → (prepare_local lib w).0 ≡ record w { curl = all_set w }
  unfolding prepare_local Options.apply Authentication.apply Certificates.apply
  prepare_local-all_set w e =
      let next1 = λ (u : Wrapper P).
        and_then (apply_authentication lib u)
          λ v. and_then (apply_certificates lib v) (apply_safe_protocols lib) in
      let next2 =
        λ (u : Wrapper P). and_then (apply_certificates lib u) (apply_safe_protocols lib) in
      let ss1 = Options.settings w.options in
      let ss2 =
        Authentication.settings w.authentication.mode w.authentication.user
          w.authentication.secret in
      let ss3 = Certificates.settings w.certificates in
      let w1 : Wrapper P = record w { curl = logged ss1 w.curl } in
      let w2 : Wrapper P = record w { curl = logged ss2 w1.curl } in
      let w3 : Wrapper P = record w { curl = logged ss3 w2.curl } in
      let q1 = or_code-logged error_options_set w ss1 next1 e in
      let e1 = sym (ap (λ (r : Wrapper P × Bool). r.1) q1) ∙ e in
      let q2 = or_code-logged error_authentication_set w1 ss2 next2 e1 in
      let e2 = sym (ap (λ (r : Wrapper P × Bool). r.1) q2) ∙ e1 in
      let q3 = or_code-logged error_certificates_set w2 ss3 (apply_safe_protocols lib) e2 in
      let e3 = sym (ap (λ (r : Wrapper P × Bool). r.1) q3) ∙ e2 in
      ap (λ (r : Wrapper P × Bool). r.0) (q1 ∙ (q2 ∙ q3))
      ∙ last_logged error_safe_protocols_set w3 (protocol_settings w.safe_protocols) e3
