-- ===== src/Wrapper.antt =====
-- include/wrapper.hpp: the state that HTTP and SMTP share, and its methods. What a lock guards is
-- one step. A user's callback is a number; which callbacks throw is a parameter. `P` is the data
-- of the protocol.
pub mod Codes
pub mod Configure
pub mod Idle
pub mod Start
pub mod Callback
pub mod Latch
pub mod Retry
pub mod Secured
pub mod Verify
pub mod Create
pub mod Preserved
pub mod Wired
pub mod Promise
pub mod Unprepared
use curlev.Prelude.{
  ℕ, ◌+◌, ◌%◌, ◌^◌, ◌-◌, Bool, true, false, ◌&&◌, Option, none, some, List, [], ◌∷◌, ltb,
  if◌then◌else◌, and_then, length, Bytes,
}
use curlev.Prelude.Int.{ℤ, pos, negsuc}
use curlev.Libcurl.{Libcurl, Easy, Setting, set_to, long, text}
use curlev.Libcurl as Curl
use curlev.CurlUtils.{set_all, c_str}
use curlev.Options
use curlev.Options.{Options}
use curlev.Authentication
use curlev.Authentication.{Authentication}
use curlev.Certificates
use curlev.Certificates.{Certificates}
use curlev.Transfer
use curlev.Transfer.{Base}
use curlev.Defaults.{Defaults}
use Codes.{
  success, running_code, error_authentication_format, error_authentication_set,
  error_certificates_format, error_certificates_set, error_options_format, error_options_set,
  error_safe_protocols_set, error_internal_start, error_user_callback,
}

pub data State : Type 0 where
  idle running finished : State

pub record Wrapper (P : Type 0) : Type 0 where
  pub base : Base
  pub curl : Easy
  pub request_retries : ℕ
  pub response_code : ℤ
  pub options : Options
  pub authentication : Authentication
  pub certificates : Certificates
  pub safe_protocols : Bytes
  pub exec_state : State
  pub user_cb_threaded : Bool
  pub user_cb : Option ℕ
  pub response_size_max : ℕ
  pub retries_max : ℕ
  pub retries_delay_ms : ℕ
  pub protocol : P
  -- The callbacks that were invoked, newest first: no member, but what the user sees.
  pub called : List ℕ

-- The virtual functions that the protocol implements.
pub record Protocol (P : Type 0) : Type 0 where
  pub prepare_protocol : Wrapper P → Wrapper P × Bool
  pub finalize_protocol : Wrapper P → Wrapper P
  pub clear_protocol : Wrapper P → Wrapper P

abbrev pub default_response_size_max : ℕ
default_response_size_max = 2000000

-- The handle as `create` leaves it, with the protocol's data and its safe protocols.
abbrev pub create : {P : Type 0} → Easy → P → Bytes → Wrapper P
create curl protocol safe = record {
  base = Transfer.initial;
  curl = curl;
  request_retries = 0;
  response_code = success;
  options = Options.initial;
  authentication = Authentication.set_default;
  certificates = Certificates.set_default [] [];
  safe_protocols = safe;
  exec_state = State.idle;
  user_cb_threaded = true;
  user_cb = none;
  response_size_max = default_response_size_max;
  retries_max = 0;
  retries_delay_ms = 100;
  protocol = protocol;
  called = [];
}

-- m_response_code == c_success
abbrev pub is_success : ℤ → Bool
is_success (pos n) = if ltb 0 n then false else true
is_success (negsuc n) = false

-- The largest curl_off_t of 64 bits.
abbrev pub max_val : ℕ
max_val = 2 ^ 63 - 1

abbrev pub protocol_settings : Bytes → List Setting
protocol_settings protocols =
    set_to Curl.protocols_str (text (c_str protocols))
    ∷ set_to Curl.redir_protocols_str (text (c_str protocols))
    ∷ []

module _ {P : Type 0} where
  -- The action, if the state is idle.
  abbrev pub idle_action : State → (Wrapper P → Wrapper P) → Wrapper P → Wrapper P
  idle_action State.idle action w = action w
  idle_action State.running action w = w
  idle_action State.finished action w = w

  unfoldable pub do_if_idle : (Wrapper P → Wrapper P) → Wrapper P → Wrapper P
  do_if_idle action w = idle_action w.exec_state action w

  -- `if ( m_response_code == c_success ) action`
  unfoldable pub if_success : (Wrapper P → Wrapper P) → Wrapper P → Wrapper P
  if_success action w = if is_success w.response_code then action w else w

  unfoldable pub is_running : Wrapper P → Bool
  is_running w = elim (w.exec_state) [ State.running ↦ true | _ ↦ false ]

  unfoldable pub get_code : Wrapper P → ℤ
  unfolding is_running
  get_code w = if is_running w then running_code else w.response_code

  unfoldable pub use_threaded_cb : Wrapper P → Bool
  use_threaded_cb w = w.user_cb_threaded && elim (w.user_cb) [ none ↦ false | some c ↦ true ]

  -- `m_request_retries++ < m_retries_max`, in `unsigned`.
  unfoldable pub can_reattempt : Wrapper P → Wrapper P × Bool
  can_reattempt w = (
    record w { request_retries = (w.request_retries + 1) % 2 ^ 32 },
    ltb w.request_retries w.retries_max,
  )

  -- `clear`, in the order of the source: the base, the members, the defaults, the protocol.
  unfoldable pub clear : Protocol P → Defaults → Wrapper P → Wrapper P
  clear p d w = p.clear_protocol (record w {
    base = Transfer.clear_base w.base;
    request_retries = 0;
    response_code = success;
    user_cb_threaded = true;
    user_cb = none;
    response_size_max = default_response_size_max;
    options = d.options;
    authentication = d.authentication;
    certificates = d.certificates;
  })

  unfoldable pub prepare_request_body : Libcurl → Wrapper P → Wrapper P × Bool
  prepare_request_body lib w =
      let size = length w.base.request_body in
      if ltb size max_val
      then (let (curl, ok) = set_all lib w.curl (
            set_to Curl.upload (long (pos 1))
            ∷ set_to Curl.infilesize_large (long (pos size))
            ∷ []) in
          (record w { curl = curl }, ok))
      else (w, false)

  -- One line of `prepare_local`: a failure sets its code and ends the function.
  abbrev pub or_code : ℤ → Wrapper P → Easy × Bool → Wrapper P × Bool
  or_code code w (curl, true) = (record w { curl = curl }, true)
  or_code code w (curl, false) = (record w { curl = curl; response_code = code }, false)

  abbrev pub apply_options : Libcurl → Wrapper P → Wrapper P × Bool
  apply_options lib w = or_code error_options_set w (Options.apply lib w.options w.curl)

  abbrev pub apply_authentication : Libcurl → Wrapper P → Wrapper P × Bool
  apply_authentication lib w =
      or_code error_authentication_set w (Authentication.apply lib w.authentication w.curl)

  abbrev pub apply_certificates : Libcurl → Wrapper P → Wrapper P × Bool
  apply_certificates lib w =
      or_code error_certificates_set w (Certificates.apply lib w.certificates w.curl)

  abbrev pub apply_safe_protocols : Libcurl → Wrapper P → Wrapper P × Bool
  apply_safe_protocols lib w =
      or_code error_safe_protocols_set w (set_all lib w.curl (protocol_settings w.safe_protocols))

  unfoldable pub prepare_local : Libcurl → Wrapper P → Wrapper P × Bool
  prepare_local lib w = and_then (apply_options lib w) λ w.
      and_then (apply_authentication lib w)
        λ w. and_then (apply_certificates lib w) (apply_safe_protocols lib)

  -- The user's callback, if there is one. It is forgotten only if it did not throw.
  unfoldable pub invoke : (ℕ → Bool) → Option ℕ → Wrapper P → Wrapper P
  invoke throws none w = w
  invoke throws (some c) w =
      if throws c
      then record w { called = c ∷ w.called; response_code = error_user_callback }
      else record w { called = c ∷ w.called; user_cb = none }

  unfoldable pub cb_protocol : (ℕ → Bool) → Wrapper P → Wrapper P
  unfolding invoke
  cb_protocol throws w = invoke throws w.user_cb w

  -- The part of `start` behind its tests: `accepted` is what ASync::start_request returns.
  unfoldable pub submit : Wrapper P × Bool → Bool → Wrapper P × Bool
  submit (w, false) accepted = (w, false)
  submit (w, true) true = (record w { exec_state = State.running }, true)
  submit (w, true) false = (record w { response_code = error_internal_start }, false)

  -- `start` in the idle state: what runs under the lock, and whether a transfer runs now.
  unfoldable pub begin_transfer :
      Protocol P → Libcurl → Option ℕ → Bool → Wrapper P → Wrapper P × Bool
  unfolding submit
  begin_transfer p lib cb accepted w =
      let w1 = record w { user_cb = cb } in
      if is_success w1.response_code
      then submit (and_then (p.prepare_protocol w1) (prepare_local lib)) accepted
      else (w1, false)

  abbrev pub callback_unless_running : (ℕ → Bool) → Wrapper P × Bool → Wrapper P
  callback_unless_running throws (w, true) = w
  callback_unless_running throws (w, false) = cb_protocol throws w

  unfoldable pub start : Protocol P → Libcurl → (ℕ → Bool) → Option ℕ → Bool → Wrapper P → Wrapper P
  unfolding begin_transfer do_if_idle
  start p lib throws cb accepted =
      do_if_idle λ w. callback_unless_running throws (begin_transfer p lib cb accepted w)

  -- `async_cb`, up to the callback, which then runs with the state `finished`.
  unfoldable pub finish : Protocol P → ℤ → Wrapper P → Wrapper P
  finish p result w = record (p.finalize_protocol (record w { response_code = result })) {
    exec_state = State.finished;
  }

  unfoldable pub async_cb : Protocol P → (ℕ → Bool) → ℤ → Wrapper P → Wrapper P
  unfolding finish cb_protocol
  async_cb p throws result w = record (cb_protocol throws (finish p result w)) {
    exec_state = State.idle;
  }

  -- The predicate that `join` waits for.
  unfoldable pub is_joined : Wrapper P → Bool
  is_joined w = elim (w.exec_state) [ State.idle ↦ true | _ ↦ false ]
