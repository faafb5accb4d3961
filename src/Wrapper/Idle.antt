-- ===== src/Wrapper/Idle.antt =====
-- While a transfer runs: include/wrapper.hpp.
use curlev.Prelude.{ℕ, Bool, Option, Bytes, ◌≡◌, ◌≢◌, arith}
use curlev.Libcurl.{Libcurl}
use curlev.Wrapper.{Wrapper, State, Protocol, do_if_idle, start}
use curlev.Wrapper.Configure.{
  options, authentication, certificates, threaded_callback, maximal_response_size, maximum_retries,
  safe_protocols,
}

-- A call of a method that changes the wrapper.
pub data Call : Type 0 where
  options_with authentication_with certificates_with safe_protocols_with : Bytes → Call
  callback_mode : Bool → Call
  response_size : ℕ → Call
  retries : ℕ → ℕ → Call
  start_with : Option ℕ → Bool → Call

module _ {P : Type 0} (p : Protocol P) (lib : Libcurl) (throws : ℕ → Bool) where
  unfoldable pub perform : Call → Wrapper P → Wrapper P
  perform (options_with s) = options s
  perform (authentication_with s) = authentication s
  perform (certificates_with s) = certificates s
  perform (safe_protocols_with s) = safe_protocols s
  perform (callback_mode mode) = threaded_callback mode
  perform (response_size size) = maximal_response_size size
  perform (retries n delay_ms) = maximum_retries n delay_ms
  perform (start_with cb accepted) = start p lib throws cb accepted

pub do_if_idle_busy :
    {P : Type 0} (action : Wrapper P → Wrapper P) (w : Wrapper P)
    → w.exec_state ≢ State.idle
    → do_if_idle action w ≡ w
unfolding do_if_idle
do_if_idle_busy action w h = ground arith

-- While a transfer runs, and until its callback has returned, the methods that configure and start
-- a wrapper change nothing.
perform_busy :
    {P : Type 0} (p : Protocol P) (lib : Libcurl) (throws : ℕ → Bool) (c : Call) (w : Wrapper P)
    → w.exec_state ≢ State.idle
    → perform p lib throws c w ≡ w
unfolding perform options authentication certificates safe_protocols threaded_callback
    maximal_response_size maximum_retries start
perform_busy p lib throws (options_with s) w h = do_if_idle_busy _ w h
perform_busy p lib throws (authentication_with s) w h = do_if_idle_busy _ w h
perform_busy p lib throws (certificates_with s) w h = do_if_idle_busy _ w h
perform_busy p lib throws (safe_protocols_with s) w h = do_if_idle_busy _ w h
perform_busy p lib throws (callback_mode mode) w h = do_if_idle_busy _ w h
perform_busy p lib throws (response_size size) w h = do_if_idle_busy _ w h
perform_busy p lib throws (retries n delay_ms) w h = do_if_idle_busy _ w h
perform_busy p lib throws (start_with cb accepted) w h = do_if_idle_busy _ w h
