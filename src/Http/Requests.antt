-- ===== src/Http/Requests.antt =====
-- The calls of HTTP that prepare a request: src/http.cpp.
use curlev.Prelude.{false, List, [], ◌≡◌, arith, Bytes, codes}
use curlev.MapUtils.{KeyValues, append_url_encoded}
use curlev.Libcurl.{Libcurl}
use curlev.Mime.{Part}
use curlev.Defaults.{Defaults}
use curlev.Wrapper.{Wrapper, do_if_idle, clear, prepare_request_body}
use curlev.System.{is_idle}
use curlev.System.Calls.{CallLaws}
use curlev.System.Start.{do_if_idle_busy}
use curlev.Http.{
  Http, Info, http, clear_protocol, request, request_cleared, with_headers, add_headers, body_set,
  set_body, set_parameters, mime_set, set_mime,
}

pub data HttpCall : Type 0 where
  requested : (method url : Bytes) → KeyValues → HttpCall
  headers_added : KeyValues → HttpCall
  body_given : (content_type body : Bytes) → HttpCall
  parameters_given : KeyValues → HttpCall
  mime_given : List Part → HttpCall

module _ (lib : Libcurl) (info : Info) (d : Defaults) where
  unfoldable pub run : HttpCall → Wrapper Http → Wrapper Http
  run (requested method url query) = request lib info d method url query
  run (headers_added ps) = add_headers lib info d ps
  run (body_given content_type body) = set_body lib info d content_type body
  run (parameters_given ps) = set_parameters lib info d ps
  run (mime_given parts) = set_mime lib info d parts

  abbrev Same : Wrapper Http → Wrapper Http → Type 0
  Same w w' = (w'.exec_state ≡ w.exec_state) × (w'.called ≡ w.called)

  idle-Same :
      (action : Wrapper Http → Wrapper Http) (w : Wrapper Http)
      → Same w (action w)
      → Same w (do_if_idle action w)
  unfolding do_if_idle
  idle-Same action w a = ground arith

  request-Same :
      (method url : Bytes) (query : KeyValues) (w : Wrapper Http)
      → Same w (request_cleared lib info d method url query (clear (http lib info) d w))
  unfolding request_cleared clear http clear_protocol
  request-Same method url query w = ground arith

  body-Same :
      (content_type body : Bytes) (w : Wrapper Http)
      → Same w (body_set lib info d content_type body w)
  unfolding body_set with_headers prepare_request_body
  body-Same content_type body w = ground arith

  mime-Same : (parts : List Part) (w : Wrapper Http) → Same w (mime_set lib info d parts w)
  unfolding mime_set
  mime-Same parts w = ground arith

  run-Same : (c : HttpCall) (w : Wrapper Http) → Same w (run c w)
  unfolding run request add_headers with_headers set_body set_parameters set_mime
  run-Same (requested method url query) w = idle-Same _ w (request-Same method url query w)
  run-Same (headers_added ps) w = idle-Same _ w (ground arith)
  run-Same (body_given content_type body) w =
      idle-Same _ w (ground (arith, body-Same content_type body w))
  run-Same (parameters_given ps) w = idle-Same _ w (
      ground (
        arith,
        body-Same (codes "application/x-www-form-urlencoded") (append_url_encoded [] ps 0 b'&') w,
      ))
  run-Same (mime_given parts) w = idle-Same _ w (ground (arith, mime-Same parts w))

  run_busy : (c : HttpCall) (w : Wrapper Http) → is_idle w.exec_state ≡ false → run c w ≡ w
  unfolding run request add_headers set_body set_parameters set_mime
  run_busy (requested method url query) w e = do_if_idle_busy _ w e
  run_busy (headers_added ps) w e = do_if_idle_busy _ w e
  run_busy (body_given content_type body) w e = do_if_idle_busy _ w e
  run_busy (parameters_given ps) w e = do_if_idle_busy _ w e
  run_busy (mime_given parts) w e = do_if_idle_busy _ w e

  pub http-CallLaws : CallLaws run
  http-CallLaws = record {
    state_kept = λ c w. (run-Same c w).0;
    called_kept = λ c w. (run-Same c w).1;
    busy_kept = run_busy;
  }
