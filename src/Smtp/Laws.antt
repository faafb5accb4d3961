-- ===== src/Smtp/Laws.antt =====
-- src/smtp.cpp keeps what the wrapper wants of a protocol.
use curlev.Prelude.{refl}
use curlev.Libcurl.{Libcurl}
use curlev.Wrapper.Start.{ProtocolLaws}
use curlev.Wrapper.{Wrapper}
use curlev.Wrapper.Promise.Kept.{TakeLaws}
use curlev.Smtp.{Smtp, smtp, take_response}

pub smtp-ProtocolLaws : (lib : Libcurl) → ProtocolLaws (smtp lib)
unfolding smtp
smtp-ProtocolLaws lib = record {
  prepare_keeps = λ w. refl;
  finalize_keeps = λ w. refl;
  clear_keeps = λ w. refl;
}

pub take_response-TakeLaws :
    TakeLaws (λ (w : Wrapper Smtp). (take_response w, w)) (λ code b protocol. code)
unfolding take_response
take_response-TakeLaws = record { state_kept = λ w. refl; code_kept = λ w. refl; told = λ w. refl }
