-- ===== src/Http/Wired.antt =====
-- The handle of an HTTP object over its whole life: src/http.cpp.
use curlev.Prelude.{
  ℕ, Bool, true, false, some, List, [], ◌∷◌, ◌≡◌, refl, arith, and_then, Bytes, codes,
}
use curlev.StringUtils.{find}
use curlev.MapUtils.{KeyValues, append_url_encoded}
use curlev.Libcurl.{Libcurl, Easy}
use curlev.CurlUtils.{curl_header_checked_append}
use curlev.Mime.{Part}
use curlev.Transfer
use curlev.Defaults.{Defaults}
use curlev.Building.Wires.{
  prepare_local-wires, wires, set_all-wires, prepare_request_body-wires, post_mime-wires,
}
use curlev.Wrapper.Codes.{error_body_set}
use curlev.Wrapper.{Wrapper, do_if_idle, clear, prepare_request_body}
use curlev.Building.{or_fail}
use curlev.Wrapper.Create.{IsWired, try_create, try_create-IsReady}
use curlev.Wrapper.Preserved.{
  Preserves, idle-Holds, or_fail-Holds, async_cb-Holds, clear-Holds, perform-Holds,
}
use curlev.Wrapper.Wired.{Wires, Keeps, wires-IsWired}
use curlev.Http.{
  Http, Info, fresh, http, prepare_protocol, finalize_protocol, clear_protocol, first_separator,
  request_settings, request_cleared, request, with_headers, add_headers, body_set as body_change,
  set_body, set_parameters, mime_set as mime_change, set_mime, take_response,
}
use curlev.Http.History.{
  Event, call, requested, headers_added, body_set, parameters_set, mime_set, transferred, completed,
  response_taken, handle, live,
}

http-Preserves : (x : Easy) (lib : Libcurl) (info : Info) → Preserves (Wires x) (http lib info) lib
unfolding http prepare_protocol finalize_protocol clear_protocol
http-Preserves x lib info = record {
  prepared = λ w a. ground arith;
  locally = prepare_local-wires lib x;
  finalized = λ w a. a;
  cleared = λ w a. a;
}

module _ (x : Easy) (lib : Libcurl) (info : Info) (d : Defaults) where
  request_cleared-wires :
      (method url : Bytes) (query : KeyValues) (w : Wrapper Http)
      → Keeps x w
      → Keeps x (request_cleared lib info d method url query w)
  unfolding request_cleared
  request_cleared-wires method url query w a = ground (
    arith,
    set_all-wires lib x w.curl
        (request_settings method
          (append_url_encoded url query (first_separator (find b'?' url)) b'&'))
        refl a,
  )

  request-wires :
      (method url : Bytes) (query : KeyValues) (w : Wrapper Http)
      → Keeps x w
      → Keeps x (request lib info d method url query w)
  unfolding request
  request-wires method url query w a =
      idle-Holds (Wires x)
        (λ w. request_cleared lib info d method url query (clear (http lib info) d w)) w a
        (request_cleared-wires method url query (clear (http lib info) d w)
          (clear-Holds (Wires x) (http lib info) lib (http-Preserves x lib info) d w a))

  add_headers-wires :
      (ps : KeyValues) (w : Wrapper Http) → Keeps x w → Keeps x (add_headers lib info d ps w)
  unfolding add_headers with_headers do_if_idle
  add_headers-wires ps w a = ground arith

  body_checked :
      (w : Wrapper Http) (r : List Bytes × Bool)
      → Keeps x w
      → Keeps x (
          or_fail error_body_set
            (and_then (with_headers lib info d w r) (prepare_request_body lib)))
  unfolding with_headers
  body_checked w (hs, true) a =
      let v : Wrapper Http = record w { protocol = record (w.protocol) { curl_headers = hs } } in
      or_fail-Holds (Wires x) error_body_set (prepare_request_body lib v)
        (prepare_request_body-wires lib x v a)
  body_checked w (hs, false) a = ground arith

  body_change-wires :
      (content_type body : Bytes) (w : Wrapper Http)
      → Keeps x w
      → Keeps x (body_change lib info d content_type body w)
  unfolding body_change with_headers
  body_change-wires content_type body w a =
      body_checked (record w { base = Transfer.set_request_body body w.base })
        (curl_header_checked_append lib w.protocol.curl_headers (codes "Content-Type") content_type)
        a

  set_body-wires :
      (content_type body : Bytes) (w : Wrapper Http)
      → Keeps x w
      → Keeps x (set_body lib info d content_type body w)
  unfolding set_body do_if_idle
  set_body-wires content_type body w a = ground (arith, body_change-wires content_type body w a)

  set_mime-wires :
      (parts : List Part) (w : Wrapper Http) → Keeps x w → Keeps x (set_mime lib info d parts w)
  unfolding set_mime do_if_idle mime_change
  set_mime-wires parts w a = ground (arith, post_mime-wires lib x w.curl parts a)

  handle-wires :
      (throws : ℕ → Bool) (e : Event) (w : Wrapper Http)
      → Keeps x w
      → Keeps x (handle lib info d throws e w)
  unfolding handle set_parameters take_response
  handle-wires throws (call c) w a =
      perform-Holds (Wires x) (http lib info) lib (http-Preserves x lib info) c throws w a
  handle-wires throws (requested method url query) w a = request-wires method url query w a
  handle-wires throws (headers_added ps) w a = add_headers-wires ps w a
  handle-wires throws (body_set content_type body) w a = set_body-wires content_type body w a
  handle-wires throws (parameters_set ps) w a =
      set_body-wires _ (append_url_encoded [] ps 0 b'&') w a
  handle-wires throws (mime_set parts) w a = set_mime-wires parts w a
  handle-wires throws (transferred b) w a = a
  handle-wires throws (completed i result) w a =
      async_cb-Holds (Wires x) (http lib i) lib (http-Preserves x lib i) throws result w a
  handle-wires throws response_taken w a = a

  live-wires :
      (throws : ℕ → Bool) (es : List Event) (w : Wrapper Http)
      → Keeps x w
      → Keeps x (live lib info d throws es w)
  unfolding live
  live-wires throws [] w a = a
  live-wires throws (e ∷ es) w a =
      live-wires throws es (handle lib info d throws e w) (handle-wires throws e w a)

-- Whatever is done with an HTTP object after its creation, and however its transfers end, its
-- handle calls the four callbacks of ASync, each for that object, shares the data of ASync and
-- takes no signals.
pub life-IsWired :
    (lib : Libcurl) (info : Info) (d : Defaults) (throws : ℕ → Bool) (init_ok : Bool) (safe : Bytes)
    (es : List Event) (w : Wrapper Http)
    → try_create lib init_ok fresh safe ≡ some w
    → IsWired (live lib info d throws es w).curl
life-IsWired lib info d throws init_ok safe es w e =
    wires-IsWired (live lib info d throws es w).curl w.curl
      (live-wires (wires w.curl) lib info d throws es w refl)
      (try_create-IsReady lib init_ok fresh safe w e).wired
