-- ===== src/Json/RoundTrip.antt =====
-- A JSON document goes to the server and comes back: src/http_json.cpp.
use curlev.Prelude.{Bool, Option, none, refl, true, false, some, if◌then◌else◌, Bytes, ◌≡◌, ap, ◌∙◌}
use curlev.MapUtils.{KeyValues}
use curlev.Libcurl.{Libcurl}
use curlev.Defaults.{Defaults}
use curlev.Wrapper.{Wrapper, State, is_running}
use curlev.Http.Bodies.{request-set_body}
use curlev.Http.{Http, Info, take_response}
use curlev.Json.{Nlohmann, json_type, rest, get_json, response_get_json, parsed}

module _ (lib : Libcurl) (info : Info) (d : Defaults) {J : Type 0} (n : Nlohmann J) where
  rest-request_body :
      (url verb : Bytes) (json : J) (query : KeyValues) (w : Wrapper Http)
      → w.exec_state ≡ State.idle
      → (rest lib info d n url verb json query w).base.request_body ≡ n.dump json
  unfolding rest
  rest-request_body url verb json query w i =
      request-set_body lib info d verb url json_type (n.dump json) query w i

  idle_read :
      (w : Wrapper Http) (old : J)
      → is_running w ≡ false
      → get_json n w old ≡ parsed n.discarded (n.parse w.base.response_body)
  unfolding get_json
  idle_read w old r =
      ap (λ b. if b then (old, false) else parsed n.discarded (n.parse w.base.response_body)) r

  same_as_parsed :
      (r : Option J)
      → parsed n.discarded r
        ≡ elim r [ none ↦ (n.discarded, false) | some document ↦ (document, true) ]
  same_as_parsed none = refl
  same_as_parsed (some document) = refl

  -- `REST` of an idle wrapper gives its request the text that `dump` makes of the document for a
  -- body, whatever request it made before and even if a setting fails; and from a response that
  -- returns that body to a wrapper that does not run, `get_json` of the wrapper and of the response
  -- that `launch` gives read the text as `parse` does: what it makes of the text, with success, or,
  -- if it refuses the text, the discarded value and a failure. So they give the document back where
  -- `parse` undoes `dump`. A `dump` that throws is not covered.
  pub rest-get_json :
      (url verb : Bytes) (json old : J) (query : KeyValues) (w answered : Wrapper Http)
      → w.exec_state ≡ State.idle
      → is_running answered ≡ false
      → answered.base.response_body ≡ (rest lib info d n url verb json query w).base.request_body
      → let read : J × Bool = elim (n.parse (n.dump json)) [
        | none ↦ (n.discarded, false)
        | some document ↦ (document, true)
      ] in
        ((rest lib info d n url verb json query w).base.request_body ≡ n.dump json)
        × (get_json n answered old ≡ read)
        × (response_get_json n (take_response answered).0 old ≡ read)
  unfolding response_get_json take_response
  rest-get_json url verb json old query w answered i r e =
      let sent = rest-request_body url verb json query w i in
      let same : n.parse answered.base.response_body ≡ n.parse (n.dump json) =
        ap n.parse (e ∙ sent) in
      let as_parsed = same_as_parsed (n.parse (n.dump json)) in
      (
        sent,
        idle_read answered old r ∙ ap (parsed n.discarded) same ∙ as_parsed,
        ap (parsed n.discarded) same ∙ as_parsed,
      )
