-- ===== src/Wrapper/Preserved.antt =====
-- What the calls of include/wrapper.hpp preserve of the handle and of the protocol's own data, which
-- only the three functions of the protocol and `prepare_local` change.
use curlev.Prelude.{ℕ, Bool, true, false, Option, none, some, arith, and_then, inl, inr, Bool-cases}
use curlev.Prelude.Int.{ℤ}
use curlev.Libcurl.{Libcurl, Easy}
use curlev.Building.{or_fail}
use curlev.Defaults.{Defaults}
use curlev.Wrapper.Codes.{error_internal_start}
use curlev.Wrapper.{
  Wrapper, Protocol, do_if_idle, clear, prepare_local, invoke, callback_unless_running, submit,
  begin_transfer, start, async_cb, finish, cb_protocol, is_success, if_success,
}
use curlev.Wrapper.Configure.{
  options, authentication, certificates, threaded_callback, maximal_response_size, maximum_retries,
  safe_protocols, set_options, set_authentication, set_certificates,
}
use curlev.Wrapper.Idle.{
  Call, options_with, authentication_with, certificates_with, safe_protocols_with, callback_mode,
  response_size, retries, start_with, perform,
}

-- The predicate `Q` of the handle and the protocol's data.
abbrev pub Holds : {P : Type 0} → (Easy → P → Type 0) → Wrapper P → Type 0
Holds Q w = Q w.curl w.protocol

-- What is wanted of the protocol and of the settings.
pub record Preserves {P : Type 0} (Q : Easy → P → Type 0) (p : Protocol P) (lib : Libcurl)
    : Type 0 where
  pub prepared : (w : Wrapper P) → Holds Q w → Holds Q (p.prepare_protocol w).0
  pub locally : (w : Wrapper P) → Holds Q w → Holds Q (prepare_local lib w).0
  pub finalized : (w : Wrapper P) → Holds Q w → Holds Q (p.finalize_protocol w)
  pub cleared : (w : Wrapper P) → Holds Q w → Holds Q (p.clear_protocol w)

module _ {P : Type 0} (Q : Easy → P → Type 0) where
  pub idle-Holds :
      (action : Wrapper P → Wrapper P) (w : Wrapper P)
      → Holds Q w
      → Holds Q (action w)
      → Holds Q (do_if_idle action w)
  unfolding do_if_idle
  idle-Holds action w a b = ground arith

  pub or_fail-Holds : (code : ℤ) (r : Wrapper P × Bool) → Holds Q r.0 → Holds Q (or_fail code r)
  or_fail-Holds code (w, true) a = a
  or_fail-Holds code (w, false) a = ground arith

  pub then-Holds :
      (r : Wrapper P × Bool) (next : Wrapper P → Wrapper P × Bool)
      → Holds Q r.0
      → ((u : Wrapper P) → Holds Q u → Holds Q (next u).0)
      → Holds Q (and_then r next).0
  then-Holds (w, true) next a f = f w a
  then-Holds (w, false) next a f = a

  invoke-Holds :
      (throws : ℕ → Bool) (cb : Option ℕ) (w : Wrapper P) → Holds Q w → Holds Q (invoke throws cb w)
  unfolding invoke
  invoke-Holds throws none w a = a
  invoke-Holds throws (some c) w a = ground arith

  begun-Holds :
      (throws : ℕ → Bool) (accepted : Bool) (r : Wrapper P × Bool)
      → Holds Q r.0
      → Holds Q (callback_unless_running throws (submit r accepted))
  unfolding submit cb_protocol
  begun-Holds throws true (w, true) a = a
  begun-Holds throws false (w, true) a =
      invoke-Holds throws w.user_cb (record w { response_code = error_internal_start }) a
  begun-Holds throws true (w, false) a = invoke-Holds throws w.user_cb w a
  begun-Holds throws false (w, false) a = invoke-Holds throws w.user_cb w a

  module _ (p : Protocol P) (lib : Libcurl) (laws : Preserves Q p lib) where
    start-Holds :
        (throws : ℕ → Bool) (cb : Option ℕ) (accepted : Bool) (w : Wrapper P)
        → Holds Q w
        → Holds Q (start p lib throws cb accepted w)
    unfolding start begin_transfer cb_protocol
    start-Holds throws cb accepted w a =
        let w1 : Wrapper P = record w { user_cb = cb } in
        idle-Holds (λ w. callback_unless_running throws (begin_transfer p lib cb accepted w)) w a
          (elim (Bool-cases (is_success w.response_code)) [
            | inl e ↦
                rw (e, begin_transfer)
                  (begun-Holds throws accepted
                    (and_then (p.prepare_protocol w1) (prepare_local lib))
                    (then-Holds (p.prepare_protocol w1) (prepare_local lib) (laws.prepared w1 a)
                      laws.locally))
            | inr e ↦ rw (e, begin_transfer) (invoke-Holds throws cb w1 a)
          ])

    pub async_cb-Holds :
        (throws : ℕ → Bool) (result : ℤ) (w : Wrapper P)
        → Holds Q w
        → Holds Q (async_cb p throws result w)
    unfolding async_cb finish cb_protocol
    async_cb-Holds throws result w a =
        let u : Wrapper P = finish p result w in
        invoke-Holds throws u.user_cb u (laws.finalized (record w { response_code = result }) a)

    pub clear-Holds : (d : Defaults) (w : Wrapper P) → Holds Q w → Holds Q (clear p d w)
    unfolding clear
    clear-Holds d w a = laws.cleared _ a

    pub perform-Holds :
        (c : Call) (throws : ℕ → Bool) (w : Wrapper P)
        → Holds Q w
        → Holds Q (perform p lib throws c w)
    unfolding perform options authentication certificates threaded_callback maximal_response_size
        maximum_retries safe_protocols do_if_idle if_success set_options set_authentication
        set_certificates
    perform-Holds (options_with s) throws w a = ground arith
    perform-Holds (authentication_with s) throws w a = ground arith
    perform-Holds (certificates_with s) throws w a = ground arith
    perform-Holds (safe_protocols_with s) throws w a = ground arith
    perform-Holds (callback_mode mode) throws w a = ground arith
    perform-Holds (response_size size) throws w a = ground arith
    perform-Holds (retries n delay_ms) throws w a = ground arith
    perform-Holds (start_with cb accepted) throws w a = start-Holds throws cb accepted w a
