-- ===== src/System/Objects.antt =====
-- ASync with the HTTP objects, and with the SMTP objects, that it runs: src/async.cpp,
-- include/wrapper.hpp, src/http.cpp and src/smtp.cpp.
use curlev.Prelude.{ℕ, ◌≤◌, Bool, [], ◌≡◌, Bytes, length}
use curlev.Libcurl.{Libcurl}
use curlev.Defaults.{Defaults}
use curlev.Wrapper.{State}
use curlev.Async.Stop.{closed_all, forced}
use curlev.Http.{Http, Info, http}
use curlev.Http.Laws.{http-ProtocolLaws}
use curlev.Http.Requests.{http-CallLaws}
use curlev.Http.Requests as Requests
use curlev.Smtp.{Smtp, smtp}
use curlev.Smtp.Laws.{smtp-ProtocolLaws}
use curlev.Smtp.Mails.{smtp-CallLaws}
use curlev.Smtp.Mails as Mails
use curlev.System.{Running, pool}
use curlev.System.Quiet.{Reached, quiet_called}
use curlev.System.Stop.{forced_called}

module _ (lib : Libcurl) (info : Info) (date : Bytes) (d : Defaults) (throws : ℕ → Bool) where
  -- What ASync and its HTTP objects come to, with the callbacks that each was given up to then.
  abbrev pub HttpReached : (ℕ → ℕ) → Running Http → Type 0
  HttpReached =
      Reached (http lib info) (http-ProtocolLaws lib info) (Requests.run lib info d)
        (http-CallLaws lib info d) lib throws

  -- The same for SMTP objects.
  abbrev pub SmtpReached : (ℕ → ℕ) → Running Smtp → Type 0
  SmtpReached =
      Reached (smtp lib) (smtp-ProtocolLaws lib) (Mails.run lib date d) (smtp-CallLaws lib date d)
        lib throws

  -- In every state that ASync comes to with HTTP objects, or with SMTP objects, by events that may
  -- happen, and in which it counts no running request, each object is idle, and has called back
  -- exactly as many times as `start` was called on it, while idle, with a callback. The events are
  -- the calls of the user, those that prepare a request among them, at any time; what libcurl
  -- receives; the ends of transfers; timers; notifications; and the turns of `stop`. Aborting a
  -- request that waits for its retry timer, or whose timer is being closed, is no event that may
  -- happen here.
  pub quiet_all_called :
      (due due' : ℕ → ℕ) (s : Running Http) (s' : Running Smtp) (h h' : ℕ)
      → HttpReached due s
      → SmtpReached due' s'
      → s.nb_running_requests ≡ 0
      → s'.nb_running_requests ≡ 0
      → (((s.wrappers h).exec_state ≡ State.idle) × (length (s.wrappers h).called ≡ due h))
        × (((s'.wrappers h').exec_state ≡ State.idle) × (length (s'.wrappers h').called ≡ due' h'))
  quiet_all_called due due' s s' h h' r r' z z' = (
    quiet_called (http lib info) (http-ProtocolLaws lib info) (Requests.run lib info d)
        (http-CallLaws lib info d) lib throws due s h r z,
    quiet_called (smtp lib) (smtp-ProtocolLaws lib) (Mails.run lib date d)
        (smtp-CallLaws lib date d) lib throws due' s' h' r' z',
  )

  -- From any state that ASync comes to with HTTP objects, or with SMTP objects, by events that may
  -- happen, with no timer being closed, a forced `stop` leaves every object idle once the callbacks
  -- of uv_close have run and the callback thread has made as many turns as there are jobs; and each
  -- object has then called back as many times as `start` was called on it, while idle, with a
  -- callback. The events are the calls of the user, those that prepare a request among them, at
  -- any time before; what libcurl receives; the ends of transfers; timers; notifications; and the
  -- turns of `stop`. Aborting a request that waits for its retry timer, or whose timer is being
  -- closed, is no event that may happen here.
  pub forced_all_called :
      (due due' : ℕ → ℕ) (s : Running Http) (s' : Running Smtp) (turns turns' h h' : ℕ)
      → HttpReached due s
      → SmtpReached due' s'
      → s.closing ≡ []
      → s'.closing ≡ []
      → length (closed_all (pool (http lib info) throws) s).cb_queue ≤ turns
      → length (closed_all (pool (smtp lib) throws) s').cb_queue ≤ turns'
      → let w = (forced (pool (http lib info) throws) turns s).wrappers h in
        let w' = (forced (pool (smtp lib) throws) turns' s').wrappers h' in
        ((w.exec_state ≡ State.idle) × (length w.called ≡ due h))
        × ((w'.exec_state ≡ State.idle) × (length w'.called ≡ due' h'))
  forced_all_called due due' s s' turns turns' h h' r r' c c' l l' = (
    forced_called (http lib info) (http-ProtocolLaws lib info) (Requests.run lib info d)
        (http-CallLaws lib info d) lib throws due s turns h r c l,
    forced_called (smtp lib) (smtp-ProtocolLaws lib) (Mails.run lib date d)
        (smtp-CallLaws lib date d) lib throws due' s' turns' h' r' c' l',
  )
