-- ===== src/Tests/Systems.antt =====
-- ASync with its wrappers: src/async.cpp and include/wrapper.hpp.
use curlev.Prelude.{ℕ, true, some, codes, Bytes, [], ◌≡◌, ◌≤◌, refl, arith, length}
use curlev.Prelude.Int.{pos}
use curlev.Async.{
  initial, start_request, fetch_message, request_completed, safe_to_restart_outcome,
  post_to_wrapper, deliver, invoke_wrapper, abort_pending_requests, abort_pending_request,
  abort_started_request, abort_retrying_request, timer_closed,
}
use curlev.Async.Wrappers.{wrapper_pool, update}
use curlev.Async.Stopping.{close_timers}
use curlev.Async.Sets.{mem, insert, erase}
use curlev.CurlUtils.{set_all, curl_slist_checked_append}
use curlev.Options
use curlev.Authentication
use curlev.Certificates
use curlev.Async.Stop.{closed_all, forced}
use curlev.Wrapper
use curlev.Wrapper.{
  Wrapper, State, prepare_local, can_reattempt, async_cb, finish, cb_protocol, invoke, clear,
  create, use_threaded_cb, do_if_idle, begin_transfer, submit,
}
use curlev.Wrapper.Start.{submits}
use curlev.Http.{
  Http, http, prepare_protocol, request, clear_protocol, release_curl_extras, finalize_protocol,
}
use curlev.System.{
  Running, Event, handle, start, ask, change, started, prepared, done, delivered, pool,
}
use curlev.System.Quiet.{IsNew, launched, followed}
use curlev.System.Invariant.{due_after}
use curlev.System.Objects.{HttpReached, SmtpReached, quiet_all_called, forced_all_called}
use curlev.Http.Requests as Requests
use curlev.Http.Requests.{HttpCall, requested}
use curlev.Smtp.Mails as Mails
use curlev.Smtp.Mails.{SmtpCall, sent}
use curlev.Smtp
use curlev.Smtp.{Smtp, smtp, released, send}
use curlev.SmtpAddress.{Address, to, get_addr_spec}
use curlev.Tests.Data.{willing, plain_text, defaults, never, object}

abbrev no_due : ℕ → ℕ
no_due h = 0

abbrev date : Bytes
date = codes "Mon, 01 Jan 2024 00:00:00 +0000"

abbrev ann : Address
ann = record { display_name = codes "Ann"; address_spec = codes "ann@a.fr"; mode = to }

-- Two objects that make two requests, one after the other: REQUEST and SEND clear the code.
abbrev web_objects : ℕ → Wrapper Http
web_objects h = object

web_objects-IsNew : (h : ℕ) → IsNew (web_objects h)
web_objects-IsNew h = record { idle = refl; called = refl }

abbrev web_does : Event HttpCall → Running Http → Running Http
web_does = handle (http willing plain_text) willing never (Requests.run willing plain_text defaults)

abbrev web_started : Running Http
web_started = web_does (started 7 (some 3) true true) (initial web_objects)

abbrev web_due_started : ℕ → ℕ
web_due_started =
    due_after {O = HttpCall} (started 7 (some 3) true true) (initial web_objects) no_due

web_started-Reached : HttpReached willing plain_text date defaults never web_due_started web_started
web_started-Reached =
    followed (started 7 (some 3) true true) no_due (initial web_objects)
      (launched web_objects web_objects-IsNew) tt

abbrev web_done : Running Http
web_done = web_does (done 7 (pos 200) true) web_started

abbrev web_due_done : ℕ → ℕ
web_due_done = due_after {O = HttpCall} (done 7 (pos 200) true) web_started web_due_started

web_done-Reached : HttpReached willing plain_text date defaults never web_due_done web_done
unfolding handle start ask submits start_request mem insert prepare_local Options.apply
    Authentication.apply Certificates.apply set_all http prepare_protocol curl_slist_checked_append
    Options.settings Authentication.settings Certificates.settings fetch_message request_completed
    can_reattempt safe_to_restart_outcome post_to_wrapper use_threaded_cb wrapper_pool update
    deliver invoke_wrapper erase Wrapper.start do_if_idle begin_transfer submit async_cb finish
    cb_protocol invoke change Requests.run request clear clear_protocol release_curl_extras
    finalize_protocol smtp Smtp.prepare_protocol released Smtp.release_curl_extras Mails.run send
    get_addr_spec
web_done-Reached =
    followed (done 7 (pos 200) true) web_due_started web_started web_started-Reached refl

abbrev web_told : Running Http
web_told = web_does (delivered) web_done

abbrev web_due_told : ℕ → ℕ
web_due_told = due_after {O = HttpCall} (delivered) web_done web_due_done

web_told-Reached : HttpReached willing plain_text date defaults never web_due_told web_told
web_told-Reached = followed (delivered) web_due_done web_done web_done-Reached tt

abbrev web_prepared : Running Http
web_prepared = web_does (prepared 7 (requested (codes "GET") (codes "http://a") [])) web_told

abbrev web_due_prepared : ℕ → ℕ
web_due_prepared =
    due_after {O = HttpCall} (prepared 7 (requested (codes "GET") (codes "http://a") [])) web_told
      web_due_told

web_prepared-Reached :
    HttpReached willing plain_text date defaults never web_due_prepared web_prepared
web_prepared-Reached =
    followed (prepared 7 (requested (codes "GET") (codes "http://a") [])) web_due_told web_told
      web_told-Reached tt

abbrev web_again : Running Http
web_again = web_does (started 7 (some 4) true true) web_prepared

abbrev web_due_again : ℕ → ℕ
web_due_again =
    due_after {O = HttpCall} (started 7 (some 4) true true) web_prepared web_due_prepared

web_again-Reached : HttpReached willing plain_text date defaults never web_due_again web_again
web_again-Reached =
    followed (started 7 (some 4) true true) web_due_prepared web_prepared web_prepared-Reached tt

abbrev web_done_again : Running Http
web_done_again = web_does (done 7 (pos 200) true) web_again

abbrev web_due_done_again : ℕ → ℕ
web_due_done_again = due_after {O = HttpCall} (done 7 (pos 200) true) web_again web_due_again

web_done_again-Reached :
    HttpReached willing plain_text date defaults never web_due_done_again web_done_again
unfolding handle start ask submits start_request mem insert prepare_local Options.apply
    Authentication.apply Certificates.apply set_all http prepare_protocol curl_slist_checked_append
    Options.settings Authentication.settings Certificates.settings fetch_message request_completed
    can_reattempt safe_to_restart_outcome post_to_wrapper use_threaded_cb wrapper_pool update
    deliver invoke_wrapper erase Wrapper.start do_if_idle begin_transfer submit async_cb finish
    cb_protocol invoke change Requests.run request clear clear_protocol release_curl_extras
    finalize_protocol smtp Smtp.prepare_protocol released Smtp.release_curl_extras Mails.run send
    get_addr_spec
web_done_again-Reached =
    followed (done 7 (pos 200) true) web_due_again web_again web_again-Reached refl

abbrev web_ended : Running Http
web_ended = web_does (delivered) web_done_again

abbrev web_due_ended : ℕ → ℕ
web_due_ended = due_after {O = HttpCall} (delivered) web_done_again web_due_done_again

web_ended-Reached : HttpReached willing plain_text date defaults never web_due_ended web_ended
web_ended-Reached = followed (delivered) web_due_done_again web_done_again web_done_again-Reached tt

abbrev mail_objects : ℕ → Wrapper Smtp
mail_objects h = create [] Smtp.fresh (codes "smtp,smtps")

mail_objects-IsNew : (h : ℕ) → IsNew (mail_objects h)
mail_objects-IsNew h = record { idle = refl; called = refl }

abbrev mail_does : Event SmtpCall → Running Smtp → Running Smtp
mail_does = handle (smtp willing) willing never (Mails.run willing date defaults)

abbrev mail_started : Running Smtp
mail_started = mail_does (started 2 (some 3) true true) (initial mail_objects)

abbrev mail_due_started : ℕ → ℕ
mail_due_started =
    due_after {O = SmtpCall} (started 2 (some 3) true true) (initial mail_objects) no_due

mail_started-Reached :
    SmtpReached willing plain_text date defaults never mail_due_started mail_started
mail_started-Reached =
    followed (started 2 (some 3) true true) no_due (initial mail_objects)
      (launched mail_objects mail_objects-IsNew) tt

abbrev mail_done : Running Smtp
mail_done = mail_does (done 2 (pos 250) true) mail_started

abbrev mail_due_done : ℕ → ℕ
mail_due_done = due_after {O = SmtpCall} (done 2 (pos 250) true) mail_started mail_due_started

mail_done-Reached : SmtpReached willing plain_text date defaults never mail_due_done mail_done
unfolding handle start ask submits start_request mem insert prepare_local Options.apply
    Authentication.apply Certificates.apply set_all http prepare_protocol curl_slist_checked_append
    Options.settings Authentication.settings Certificates.settings fetch_message request_completed
    can_reattempt safe_to_restart_outcome post_to_wrapper use_threaded_cb wrapper_pool update
    deliver invoke_wrapper erase Wrapper.start do_if_idle begin_transfer submit async_cb finish
    cb_protocol invoke change Requests.run request clear clear_protocol release_curl_extras
    finalize_protocol smtp Smtp.prepare_protocol released Smtp.release_curl_extras Mails.run send
    get_addr_spec
mail_done-Reached =
    followed (done 2 (pos 250) true) mail_due_started mail_started mail_started-Reached refl

abbrev mail_told : Running Smtp
mail_told = mail_does (delivered) mail_done

abbrev mail_due_told : ℕ → ℕ
mail_due_told = due_after {O = SmtpCall} (delivered) mail_done mail_due_done

mail_told-Reached : SmtpReached willing plain_text date defaults never mail_due_told mail_told
mail_told-Reached = followed (delivered) mail_due_done mail_done mail_done-Reached tt

abbrev mail_prepared : Running Smtp
mail_prepared = mail_does (prepared 2 (sent (codes "smtp://a") ann)) mail_told

abbrev mail_due_prepared : ℕ → ℕ
mail_due_prepared =
    due_after {O = SmtpCall} (prepared 2 (sent (codes "smtp://a") ann)) mail_told mail_due_told

mail_prepared-Reached :
    SmtpReached willing plain_text date defaults never mail_due_prepared mail_prepared
mail_prepared-Reached =
    followed (prepared 2 (sent (codes "smtp://a") ann)) mail_due_told mail_told mail_told-Reached tt

abbrev mail_again : Running Smtp
mail_again = mail_does (started 2 (some 4) true true) mail_prepared

abbrev mail_due_again : ℕ → ℕ
mail_due_again =
    due_after {O = SmtpCall} (started 2 (some 4) true true) mail_prepared mail_due_prepared

mail_again-Reached : SmtpReached willing plain_text date defaults never mail_due_again mail_again
mail_again-Reached =
    followed (started 2 (some 4) true true) mail_due_prepared mail_prepared mail_prepared-Reached tt

abbrev mail_done_again : Running Smtp
mail_done_again = mail_does (done 2 (pos 250) true) mail_again

abbrev mail_due_done_again : ℕ → ℕ
mail_due_done_again = due_after {O = SmtpCall} (done 2 (pos 250) true) mail_again mail_due_again

mail_done_again-Reached :
    SmtpReached willing plain_text date defaults never mail_due_done_again mail_done_again
unfolding handle start ask submits start_request mem insert prepare_local Options.apply
    Authentication.apply Certificates.apply set_all http prepare_protocol curl_slist_checked_append
    Options.settings Authentication.settings Certificates.settings fetch_message request_completed
    can_reattempt safe_to_restart_outcome post_to_wrapper use_threaded_cb wrapper_pool update
    deliver invoke_wrapper erase Wrapper.start do_if_idle begin_transfer submit async_cb finish
    cb_protocol invoke change Requests.run request clear clear_protocol release_curl_extras
    finalize_protocol smtp Smtp.prepare_protocol released Smtp.release_curl_extras Mails.run send
    get_addr_spec
mail_done_again-Reached =
    followed (done 2 (pos 250) true) mail_due_again mail_again mail_again-Reached refl

abbrev mail_ended : Running Smtp
mail_ended = mail_does (delivered) mail_done_again

abbrev mail_due_ended : ℕ → ℕ
mail_due_ended = due_after {O = SmtpCall} (delivered) mail_done_again mail_due_done_again

mail_ended-Reached : SmtpReached willing plain_text date defaults never mail_due_ended mail_ended
mail_ended-Reached =
    followed (delivered) mail_due_done_again mail_done_again mail_done_again-Reached tt

web_quiet : web_ended.nb_running_requests ≡ 0
unfolding handle start ask submits start_request mem insert prepare_local Options.apply
    Authentication.apply Certificates.apply set_all http prepare_protocol curl_slist_checked_append
    Options.settings Authentication.settings Certificates.settings fetch_message request_completed
    can_reattempt safe_to_restart_outcome post_to_wrapper use_threaded_cb wrapper_pool update
    deliver invoke_wrapper erase Wrapper.start do_if_idle begin_transfer submit async_cb finish
    cb_protocol invoke change Requests.run request clear clear_protocol release_curl_extras
    finalize_protocol smtp Smtp.prepare_protocol released Smtp.release_curl_extras Mails.run send
    get_addr_spec
web_quiet = refl

mail_quiet : mail_ended.nb_running_requests ≡ 0
unfolding handle start ask submits start_request mem insert prepare_local Options.apply
    Authentication.apply Certificates.apply set_all http prepare_protocol curl_slist_checked_append
    Options.settings Authentication.settings Certificates.settings fetch_message request_completed
    can_reattempt safe_to_restart_outcome post_to_wrapper use_threaded_cb wrapper_pool update
    deliver invoke_wrapper erase Wrapper.start do_if_idle begin_transfer submit async_cb finish
    cb_protocol invoke change Requests.run request clear clear_protocol release_curl_extras
    finalize_protocol smtp Smtp.prepare_protocol released Smtp.release_curl_extras Mails.run send
    get_addr_spec
mail_quiet = refl

quiet_all_called_example :
    (((web_ended.wrappers 7).exec_state ≡ State.idle) × (length (web_ended.wrappers 7).called ≡ 2))
    × (((mail_ended.wrappers 2).exec_state ≡ State.idle)
        × (length (mail_ended.wrappers 2).called ≡ 2))
unfolding handle start ask submits start_request mem insert prepare_local Options.apply
    Authentication.apply Certificates.apply set_all http prepare_protocol curl_slist_checked_append
    Options.settings Authentication.settings Certificates.settings fetch_message request_completed
    can_reattempt safe_to_restart_outcome post_to_wrapper use_threaded_cb wrapper_pool update
    deliver invoke_wrapper erase Wrapper.start do_if_idle begin_transfer submit async_cb finish
    cb_protocol invoke change Requests.run request clear clear_protocol release_curl_extras
    finalize_protocol smtp Smtp.prepare_protocol released Smtp.release_curl_extras Mails.run send
    get_addr_spec
quiet_all_called_example =
    quiet_all_called willing plain_text date defaults never web_due_ended mail_due_ended web_ended
      mail_ended 7 2 web_ended-Reached mail_ended-Reached web_quiet mail_quiet

web_open : web_again.closing ≡ []
unfolding handle start ask submits start_request mem insert prepare_local Options.apply
    Authentication.apply Certificates.apply set_all http prepare_protocol curl_slist_checked_append
    Options.settings Authentication.settings Certificates.settings fetch_message request_completed
    can_reattempt safe_to_restart_outcome post_to_wrapper use_threaded_cb wrapper_pool update
    deliver invoke_wrapper erase Wrapper.start do_if_idle begin_transfer submit async_cb finish
    cb_protocol invoke change Requests.run request clear clear_protocol release_curl_extras
    finalize_protocol smtp Smtp.prepare_protocol released Smtp.release_curl_extras Mails.run send
    get_addr_spec
web_open = refl

mail_open : mail_again.closing ≡ []
unfolding handle start ask submits start_request mem insert prepare_local Options.apply
    Authentication.apply Certificates.apply set_all http prepare_protocol curl_slist_checked_append
    Options.settings Authentication.settings Certificates.settings fetch_message request_completed
    can_reattempt safe_to_restart_outcome post_to_wrapper use_threaded_cb wrapper_pool update
    deliver invoke_wrapper erase Wrapper.start do_if_idle begin_transfer submit async_cb finish
    cb_protocol invoke change Requests.run request clear clear_protocol release_curl_extras
    finalize_protocol smtp Smtp.prepare_protocol released Smtp.release_curl_extras Mails.run send
    get_addr_spec
mail_open = refl

web_short : length (closed_all (pool (http willing plain_text) never) web_again).cb_queue ≤ 1
unfolding handle start ask submits start_request mem insert prepare_local Options.apply
    Authentication.apply Certificates.apply set_all http prepare_protocol curl_slist_checked_append
    Options.settings Authentication.settings Certificates.settings fetch_message request_completed
    can_reattempt safe_to_restart_outcome post_to_wrapper use_threaded_cb wrapper_pool update
    deliver invoke_wrapper erase Wrapper.start do_if_idle begin_transfer submit async_cb finish
    cb_protocol invoke change Requests.run request clear clear_protocol release_curl_extras
    finalize_protocol smtp Smtp.prepare_protocol released Smtp.release_curl_extras Mails.run send
    get_addr_spec abort_pending_requests abort_pending_request abort_started_request
    abort_retrying_request close_timers timer_closed
web_short = omega arith

mail_short : length (closed_all (pool (smtp willing) never) mail_again).cb_queue ≤ 1
unfolding handle start ask submits start_request mem insert prepare_local Options.apply
    Authentication.apply Certificates.apply set_all http prepare_protocol curl_slist_checked_append
    Options.settings Authentication.settings Certificates.settings fetch_message request_completed
    can_reattempt safe_to_restart_outcome post_to_wrapper use_threaded_cb wrapper_pool update
    deliver invoke_wrapper erase Wrapper.start do_if_idle begin_transfer submit async_cb finish
    cb_protocol invoke change Requests.run request clear clear_protocol release_curl_extras
    finalize_protocol smtp Smtp.prepare_protocol released Smtp.release_curl_extras Mails.run send
    get_addr_spec abort_pending_requests abort_pending_request abort_started_request
    abort_retrying_request close_timers timer_closed
mail_short = omega arith

forced_all_called_example :
    let w = (forced (pool (http willing plain_text) never) 1 web_again).wrappers 7 in
    let w' = (forced (pool (smtp willing) never) 1 mail_again).wrappers 2 in
    ((w.exec_state ≡ State.idle) × (length w.called ≡ 2))
    × ((w'.exec_state ≡ State.idle) × (length w'.called ≡ 2))
unfolding handle start ask submits start_request mem insert prepare_local Options.apply
    Authentication.apply Certificates.apply set_all http prepare_protocol curl_slist_checked_append
    Options.settings Authentication.settings Certificates.settings fetch_message request_completed
    can_reattempt safe_to_restart_outcome post_to_wrapper use_threaded_cb wrapper_pool update
    deliver invoke_wrapper erase Wrapper.start do_if_idle begin_transfer submit async_cb finish
    cb_protocol invoke change Requests.run request clear clear_protocol release_curl_extras
    finalize_protocol smtp Smtp.prepare_protocol released Smtp.release_curl_extras Mails.run send
    get_addr_spec
forced_all_called_example =
    forced_all_called willing plain_text date defaults never web_due_again mail_due_again web_again
      mail_again 1 1 7 2 web_again-Reached mail_again-Reached web_open mail_open web_short
      mail_short
