-- ===== src/Wrapper/Configure.antt =====
-- The methods of include/wrapper.hpp that configure a wrapper.
use curlev.Prelude.{ℕ, Bool, if◌then◌else◌, Bytes}
use curlev.Prelude.Int.{ℤ}
use curlev.Options
use curlev.Authentication
use curlev.Certificates
use curlev.Wrapper.Codes.{
  error_options_format, error_authentication_format, error_certificates_format,
}
use curlev.Wrapper.{Wrapper, do_if_idle, if_success}

module _ {P : Type 0} where
  abbrev with_code : ℤ → Wrapper P → Wrapper P
  with_code code w = record w { response_code = code }

  unfoldable pub set_options : Bytes → Wrapper P → Wrapper P
  set_options s w =
      let (o, ok) = Options.set s w.options in
      let w' = record w { options = o } in if ok then w' else with_code error_options_format w'

  unfoldable pub set_authentication : Bytes → Wrapper P → Wrapper P
  set_authentication s w =
      let (a, ok) = Authentication.set s w.authentication in
      let w' = record w { authentication = a } in
      if ok then w' else with_code error_authentication_format w'

  unfoldable pub set_certificates : Bytes → Wrapper P → Wrapper P
  set_certificates s w =
      let (c, ok) = Certificates.set s w.certificates in
      let w' = record w { certificates = c } in
      if ok then w' else with_code error_certificates_format w'

  unfoldable pub options : Bytes → Wrapper P → Wrapper P
  unfolding set_options do_if_idle if_success
  options s = do_if_idle (if_success (set_options s))

  unfoldable pub authentication : Bytes → Wrapper P → Wrapper P
  unfolding set_authentication do_if_idle if_success
  authentication s = do_if_idle (if_success (set_authentication s))

  unfoldable pub certificates : Bytes → Wrapper P → Wrapper P
  unfolding set_certificates do_if_idle if_success
  certificates s = do_if_idle (if_success (set_certificates s))

  unfoldable pub threaded_callback : Bool → Wrapper P → Wrapper P
  unfolding do_if_idle if_success
  threaded_callback mode = do_if_idle (if_success λ w. record w { user_cb_threaded = mode })

  unfoldable pub maximal_response_size : ℕ → Wrapper P → Wrapper P
  unfolding do_if_idle if_success
  maximal_response_size size = do_if_idle (if_success λ w. record w { response_size_max = size })

  unfoldable pub maximum_retries : ℕ → ℕ → Wrapper P → Wrapper P
  unfolding do_if_idle if_success
  maximum_retries retries delay_ms =
      do_if_idle (if_success λ w. record w { retries_max = retries; retries_delay_ms = delay_ms })

  unfoldable pub safe_protocols : Bytes → Wrapper P → Wrapper P
  unfolding do_if_idle if_success
  safe_protocols s = do_if_idle (if_success λ w. record w { safe_protocols = s })
