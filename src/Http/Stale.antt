-- ===== src/Http/Stale.antt =====
-- What a handle keeps from one request to the next: REQUEST of src/http.cpp.
use curlev.Prelude.{[], none, ◌≡◌}
use curlev.Libcurl.{Libcurl, Setting}
use curlev.Libcurl as Curl
use curlev.Defaults.{Defaults}
use curlev.Transfer
use curlev.Wrapper.{Wrapper}
use curlev.Http.{Http, request}

-- What REQUEST leaves of an earlier request in the members of the object.
pub record IsCleared (d : Defaults) (w' : Wrapper Http) : Type 0 where
  pub request : (w'.base.request_body ≡ []) × (w'.base.request_body_sent ≡ 0)
  pub response : (w'.base.response_headers ≡ []) × (w'.base.response_body ≡ [])
  pub told : (w'.protocol.response_content_type ≡ []) × (w'.protocol.response_redirect_url ≡ [])
  pub lists : (w'.protocol.curl_headers ≡ []) × (w'.protocol.curl_mime ≡ none)
  pub attempts : w'.request_retries ≡ 0
  pub callback : w'.user_cb ≡ none
  pub configuration :
      (w'.options ≡ d.options)
      × (w'.authentication ≡ d.authentication)
      × (w'.certificates ≡ d.certificates)
