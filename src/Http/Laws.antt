-- ===== src/Http/Laws.antt =====
-- src/http.cpp keeps what the wrapper wants of a protocol.
use curlev.Prelude.{refl, arith}
use curlev.Libcurl.{Libcurl}
use curlev.Prelude.Int.{ℤ}
use curlev.Transfer.{Base}
use curlev.Wrapper.{Wrapper}
use curlev.Wrapper.Start.{Keeps, ProtocolLaws}
use curlev.Wrapper.Promise.Kept.{TakeLaws}
use curlev.Http.{Http, Info, Response, http, prepare_protocol, take_response}

prepare_kept : (lib : Libcurl) (w : Wrapper Http) → Keeps w (prepare_protocol lib w).0
unfolding prepare_protocol
prepare_kept lib w = ground arith

pub http-ProtocolLaws : (lib : Libcurl) (info : Info) → ProtocolLaws (http lib info)
unfolding http
http-ProtocolLaws lib info = record {
  prepare_keeps = prepare_kept lib;
  finalize_keeps = λ w. refl;
  clear_keeps = λ w. refl;
}

-- The response that the user of `launch` gets.
abbrev pub response_of : ℤ → Base → Http → Response
response_of code b protocol = record {
  code = code;
  headers = b.response_headers;
  redirect_url = protocol.response_redirect_url;
  content_type = protocol.response_content_type;
  body = b.response_body;
}

pub take_response-TakeLaws : TakeLaws take_response response_of
unfolding take_response
take_response-TakeLaws = record { state_kept = λ w. refl; code_kept = λ w. refl; told = λ w. refl }
