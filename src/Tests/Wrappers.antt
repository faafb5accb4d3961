-- ===== src/Tests/Wrappers.antt =====
-- The wrapper, over HTTP: include/wrapper.hpp.
use curlev.Prelude.{not, true, none, some, [], ◌∷◌, ◌≡◌, refl, arith, codes, ◌==◌}
use curlev.Prelude.Int.{pos}
use curlev.Libcurl.{Libcurl, Setting, set_to, setting_of}
use curlev.Libcurl as Curl
use curlev.CurlUtils.{set_all, curl_slist_checked_append}
use curlev.Options
use curlev.Authentication
use curlev.Certificates
use curlev.Wrapper.Codes.{error_options_format}
use curlev.Wrapper.{
  Wrapper, State, start, async_cb, prepare_local, begin_transfer, submit, do_if_idle,
}
use curlev.Wrapper.Start.{Outcome, start-Outcome}
use curlev.Wrapper.Callback.{Completed, async_cb-Completed, completed, called_once}
use curlev.Wrapper.Secured.{IsSecured}
use curlev.Wrapper.Verify.{started-IsSecured}
use curlev.Wrapper.Idle.{options_with}
use curlev.Wrapper.Latch.{Refused, configure, first_error_stays}
use curlev.Wrapper.Retry.{reattempts, reattempts_bounded}
use curlev.Wrapper.Unprepared.{IsSilent}
use curlev.System.Refused.{RefusesHeaders, refused_headers_report_success}
use curlev.Smtp
use curlev.Smtp.{Smtp}
use curlev.Wrapper.{create}
use curlev.Transfer.{Base}
use curlev.Http.Launch.{Answered, begun, launch-Answered}
use curlev.Http.{Http, http, prepare_protocol, take_response}
use curlev.Wrapper.Promise.{launch}
use curlev.Http.Laws.{http-ProtocolLaws}
use curlev.Tests.Data.{willing, plain_text, never, object}

start-Outcome_example :
    Outcome
      (http willing plain_text)
      (http-ProtocolLaws willing plain_text)
      willing
      (some 7)
      true
      object
      (start (http willing plain_text) willing never (some 7) true object)
start-Outcome_example =
    start-Outcome (http willing plain_text) (http-ProtocolLaws willing plain_text) willing never
      (some 7) true object refl

async_cb-Completed_example :
    Completed never (pos 200) object (async_cb (http willing plain_text) never (pos 200) object)
async_cb-Completed_example =
    async_cb-Completed (http willing plain_text) (http-ProtocolLaws willing plain_text) never
      (pos 200) object

abbrev failed : Wrapper Http
failed = record object { response_code = error_options_format }

abbrev reconfigured : Wrapper Http
reconfigured =
    configure (http willing plain_text) willing never (options_with (codes "timeout=1") ∷ []) failed

first_error_stays_example :
    (reconfigured ≡ failed)
    × Refused
        (http willing plain_text)
        willing
        never
        (some 7)
        failed
        (start (http willing plain_text) willing never (some 7) true reconfigured)
first_error_stays_example =
    first_error_stays (http willing plain_text) willing never
      (options_with (codes "timeout=1") ∷ []) (some 7) true failed (tt, tt) refl refl

abbrev patient : Wrapper Http
patient = record object { retries_max = 3 }

reattempts_bounded_example : reattempts 5 patient ≡ 3
reattempts_bounded_example = reattempts_bounded 5 patient refl (omega arith)

called_once_example :
    ((completed
        (http willing plain_text)
        (http-ProtocolLaws willing plain_text)
        never
        (pos 200)
        (start (http willing plain_text) willing never (some 7) true object)).called
      ≡ 7 ∷ [])
    × ((completed
          (http willing plain_text)
          (http-ProtocolLaws willing plain_text)
          never
          (pos 200)
          (start (http willing plain_text) willing never (some 7) true object)).exec_state
        ≡ State.idle)
called_once_example =
    called_once (http willing plain_text) (http-ProtocolLaws willing plain_text) willing never
      (some 7) true (pos 200) object refl

started-IsSecured_example :
    IsSecured object.options object.safe_protocols
      (start (http willing plain_text) willing never none true object).curl
unfolding start do_if_idle begin_transfer submit http prepare_protocol prepare_local set_all
    Options.apply Authentication.apply Certificates.apply Options.settings curl_slist_checked_append
started-IsSecured_example =
    started-IsSecured (http willing plain_text) (http-ProtocolLaws willing plain_text) willing never
      none true object refl refl

-- A libcurl that refuses the list of headers.
abbrev headless : Libcurl
headless = record willing {
  setopt = λ h s. not (Curl.index s.option == Curl.index Curl.httpheader);
}

headless-RefusesHeaders : RefusesHeaders headless
headless-RefusesHeaders h headers = refl

abbrev letter : Wrapper Smtp
letter = create [] Smtp.fresh (codes "smtp,smtps")

refused_headers_report_success_example :
    IsSilent never
      (some 7)
      object
      (start (http headless plain_text) headless never (some 7) true object)
    × IsSilent never
        (some 7)
        letter
        (start (Smtp.smtp headless) headless never (some 7) true letter)
refused_headers_report_success_example =
    refused_headers_report_success headless headless-RefusesHeaders plain_text never (some 7) true
      object letter refl refl refl refl

-- The server sends a body.
abbrev body_stored : Base → Base
body_stored b = record b { response_body = codes "hello" }

launch-Answered_example :
    Answered willing plain_text body_stored
      (pos 200)
      object
      (begun willing plain_text 7 true object).1
      (launch (http willing plain_text) willing take_response 7 true object)
launch-Answered_example =
    launch-Answered willing plain_text 7 body_stored true (pos 200) object refl
