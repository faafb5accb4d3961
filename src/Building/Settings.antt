-- ===== src/Building/Settings.antt =====
-- What the settings of `prepare_local` and `prepare_request_body` of include/wrapper.hpp preserve
-- of the handle.
use curlev.Prelude.{
  Bool, true, false, List, [], ◌∷◌, ◌≡◌, arith, and_then, all, inl, inr, Bool-cases, length,
}
use curlev.Prelude.Int.{ℤ, pos}
use curlev.Libcurl.{Libcurl, Easy, Setting, long, set_to}
use curlev.Libcurl as Curl
use curlev.CurlUtils.{set_all}
use curlev.Options
use curlev.Authentication
use curlev.Certificates
use curlev.Wrapper.{
  Wrapper, prepare_local, prepare_request_body, or_code, apply_options, apply_authentication,
  apply_certificates, apply_safe_protocols, protocol_settings,
}
use curlev.Wrapper.Codes.{
  error_options_set, error_authentication_set, error_certificates_set, error_safe_protocols_set,
}

abbrev pub body_settings : {P : Type 0} → Wrapper P → List Setting
body_settings w =
    set_to Curl.upload (long (pos 1))
    ∷ set_to Curl.infilesize_large (long (pos (length w.base.request_body)))
    ∷ []

module _ (S : Easy → Type 0) (ok : Setting → Bool)
    (grows : (s : Setting) (h : Easy) → ok s ≡ true → S h → S (s ∷ h)) where
  -- Settings that are all `ok` preserve `S`, also where libcurl refuses one.
  pub set_all-Stays :
      (lib : Libcurl) (h : Easy) (ss : List Setting)
      → all ok ss ≡ true
      → S h
      → S (set_all lib h ss).0
  unfolding set_all
  set_all-Stays lib h [] a b = b
  set_all-Stays lib h (s ∷ ss) a b = elim (Bool-cases (lib.setopt h s)) [
    | inr e ↦ rw e b
    | inl e ↦
        rw e (set_all-Stays lib (s ∷ h) ss (ground (arith, a)) (grows s h (ground (arith, a)) b))
  ]

  module _ {P : Type 0} (lib : Libcurl) where
    or_code-Stays :
        (code : ℤ) (w : Wrapper P) (ss : List Setting)
        → all ok ss ≡ true
        → S w.curl
        → S (or_code code w (set_all lib w.curl ss)).0.curl
    or_code-Stays code w ss a h = ground (arith, set_all-Stays lib w.curl ss a h)

    then-Stays :
        (r : Wrapper P × Bool) (next : Wrapper P → Wrapper P × Bool)
        → S r.0.curl
        → ((u : Wrapper P) → S u.curl → S (next u).0.curl)
        → S (and_then r next).0.curl
    then-Stays (w, true) next a f = f w a
    then-Stays (w, false) next a f = a

    pub prepare_local-Stays :
        ((o : Options.Options) → all ok (Options.settings o) ≡ true)
        → ((a : Authentication.Authentication)
            → all ok (Authentication.settings a.mode a.user a.secret) ≡ true)
        → ((c : Certificates.Certificates) → all ok (Certificates.settings c) ≡ true)
        → ((w : Wrapper P) → all ok (protocol_settings w.safe_protocols) ≡ true)
        → (w : Wrapper P) → S w.curl
        → S (prepare_local lib w).0.curl
    unfolding prepare_local Options.apply Authentication.apply Certificates.apply
    prepare_local-Stays of_options of_authentication of_certificates of_protocols w h =
        then-Stays (apply_options lib w)
          (λ w.
            and_then (apply_authentication lib w)
              λ w. and_then (apply_certificates lib w) (apply_safe_protocols lib))
          (or_code-Stays error_options_set w _ (of_options w.options) h)
          λ u hu.
            then-Stays (apply_authentication lib u)
              (λ w. and_then (apply_certificates lib w) (apply_safe_protocols lib))
              (or_code-Stays error_authentication_set u _ (of_authentication u.authentication) hu)
              λ v hv.
                then-Stays (apply_certificates lib v) (apply_safe_protocols lib)
                  (or_code-Stays error_certificates_set v _ (of_certificates v.certificates) hv)
                  λ y hy. or_code-Stays error_safe_protocols_set y _ (of_protocols y) hy

    pub prepare_request_body-Stays :
        ((w : Wrapper P) → all ok (body_settings w) ≡ true)
        → (w : Wrapper P) → S w.curl
        → S (prepare_request_body lib w).0.curl
    unfolding prepare_request_body
    prepare_request_body-Stays of_body w h =
        ground (arith, set_all-Stays lib w.curl (body_settings w) (of_body w) h)
