-- ===== src/Wrapper/Latch.antt =====
-- The first error of a configuration stays until the wrapper is cleared: include/wrapper.hpp.
use curlev.Prelude.{
  ℕ, Bool, false, Option, none, some, List, [], ◌∷◌, ◌≡◌, refl, arith, ◌∙◌, ap, sym, subst, All,
}
use curlev.Libcurl.{Libcurl}
use curlev.Wrapper.Start.{invoked, invoke-called, do_if_idle_idle}
use curlev.Wrapper.Callback.{code_after}
use curlev.Wrapper.Idle.{
  Call, options_with, authentication_with, certificates_with, safe_protocols_with, callback_mode,
  response_size, retries, start_with, perform,
}
use curlev.Wrapper.{
  Wrapper, State, Protocol, do_if_idle, if_success, is_success, start, begin_transfer, invoke,
  cb_protocol,
}
use curlev.Wrapper.Configure.{
  options, authentication, certificates, threaded_callback, maximal_response_size, maximum_retries,
  safe_protocols,
}

abbrev pub IsConfig : Call → Type 0
IsConfig (start_with cb accepted) = ⊥
IsConfig _ = Unit

do_if_idle_same :
    {P : Type 0} (action : Wrapper P → Wrapper P) (w : Wrapper P)
    → action w ≡ w
    → do_if_idle action w ≡ w
unfolding do_if_idle
do_if_idle_same action w e = ground arith

if_success_latched :
    {P : Type 0} (action : Wrapper P → Wrapper P) (w : Wrapper P)
    → is_success w.response_code ≡ false
    → do_if_idle (if_success action) w ≡ w
unfolding if_success
if_success_latched action w e = do_if_idle_same (if_success action) w (rw (e, if_success))

module _ {P : Type 0} (p : Protocol P) (lib : Libcurl) (throws : ℕ → Bool) where
  latched :
      (c : Call) (w : Wrapper P)
      → IsConfig c
      → is_success w.response_code ≡ false
      → perform p lib throws c w ≡ w
  unfolding perform options authentication certificates safe_protocols threaded_callback
      maximal_response_size maximum_retries
  latched (options_with s) w k e = if_success_latched _ w e
  latched (authentication_with s) w k e = if_success_latched _ w e
  latched (certificates_with s) w k e = if_success_latched _ w e
  latched (safe_protocols_with s) w k e = if_success_latched _ w e
  latched (callback_mode mode) w k e = if_success_latched _ w e
  latched (response_size size) w k e = if_success_latched _ w e
  latched (retries n delay_ms) w k e = if_success_latched _ w e
  latched (start_with cb accepted) w k e = absurd k

  pub configure : List Call → Wrapper P → Wrapper P
  configure [] w = w
  configure (c ∷ cs) w = configure cs (perform p lib throws c w)

  configure_latched :
      (cs : List Call) (w : Wrapper P)
      → All IsConfig cs
      → is_success w.response_code ≡ false
      → configure cs w ≡ w
  unfolding configure
  configure_latched [] w k e = refl
  configure_latched (c ∷ cs) w (k, ks) e =
      ap (configure cs) (latched c w k e) ∙ configure_latched cs w ks e

  refused_code :
      (cb : Option ℕ) (w : Wrapper P)
      → ((invoke throws cb (record w { user_cb = cb })).response_code
          ≡ code_after throws cb w.response_code)
        × ((invoke throws cb (record w { user_cb = cb })).curl ≡ w.curl)
  unfolding invoke
  refused_code none w = (refl, refl)
  refused_code (some c) w = ground arith

  -- `start` after an error: the callback, and nothing else.
  pub record Refused (cb : Option ℕ) (w w' : Wrapper P) : Type 0 where
    pub idle : w'.exec_state ≡ State.idle
    pub called : w'.called ≡ invoked cb w.called
    pub code : w'.response_code ≡ code_after throws cb w.response_code
    pub handle : w'.curl ≡ w.curl

  start-Refused :
      (cb : Option ℕ) (accepted : Bool) (w : Wrapper P)
      → w.exec_state ≡ State.idle
      → is_success w.response_code ≡ false
      → Refused cb w (start p lib throws cb accepted w)
  unfolding start begin_transfer cb_protocol
  start-Refused cb accepted w i e =
      rw (do_if_idle_idle _ w i, e, begin_transfer)
        (record {
          idle = (invoke-called throws cb (record w { user_cb = cb })).1 ∙ i;
          called = (invoke-called throws cb (record w { user_cb = cb })).0;
          code = (refused_code cb w).0;
          handle = (refused_code cb w).1;
        })

  -- Once the code of an idle wrapper is an error, the calls of Wrapper that configure leave every
  -- member of it as it was, whatever they are, and `start` begins no transfer: it sets no option of
  -- the handle, invokes the callback once, and the user sees the first error, unless the callback
  -- threw.
  pub first_error_stays :
      (cs : List Call) (cb : Option ℕ) (accepted : Bool) (w : Wrapper P)
      → All IsConfig cs
      → w.exec_state ≡ State.idle
      → is_success w.response_code ≡ false
      → (configure cs w ≡ w) × Refused cb w (start p lib throws cb accepted (configure cs w))
  first_error_stays cs cb accepted w k i e = (
    configure_latched cs w k e,
    subst (λ v. Refused cb w (start p lib throws cb accepted v)) (sym (configure_latched cs w k e))
        (start-Refused cb accepted w i e),
  )
