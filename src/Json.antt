-- ===== src/Json.antt =====
-- src/http_json.cpp: JSON documents as the bodies of requests and of responses. The two JSON
-- libraries are parameters.
pub mod RoundTrip
use curlev.Prelude.{Bool, true, false, not, Option, none, some, if◌then◌else◌, Bytes, codes}
use curlev.MapUtils.{KeyValues}
use curlev.Libcurl.{Libcurl}
use curlev.CurlUtils.{c_str}
use curlev.Defaults.{Defaults}
use curlev.Wrapper.{Wrapper, is_running}
use curlev.Http.{Http, Info, Response, request, set_body}

-- nlohmann::json: `dump`, `parse` without exceptions, and the value of a text that is no JSON.
pub record Nlohmann (J : Type 0) : Type 0 where
  pub dump : J → Bytes
  pub parse : Bytes → Option J
  pub discarded : J

-- rapidjson: what a Writer writes for a document, and what Parse makes of a C string, with
-- HasParseError.
pub record Rapidjson (J : Type 0) : Type 0 where
  pub accept : J → Bytes
  pub parse : Bytes → J × Bool

abbrev pub json_type : Bytes
json_type = codes "application/json"

-- `serialize`: `buffer.GetString()` is read as a C string.
unfoldable pub serialize : {J : Type 0} → Rapidjson J → J → Bytes
serialize r json = c_str (r.accept json)

module _ (lib : Libcurl) (info : Info) (d : Defaults) {J : Type 0} where
  -- REST
  unfoldable pub rest : Nlohmann J → Bytes → Bytes → J → KeyValues → Wrapper Http → Wrapper Http
  unfolding request set_body
  rest n url verb json query w =
      set_body lib info d json_type (n.dump json) (request lib info d verb url query w)

  unfoldable pub rest_document :
      Rapidjson J → Bytes → Bytes → J → KeyValues → Wrapper Http → Wrapper Http
  unfolding request set_body serialize
  rest_document r url verb json query w =
      set_body lib info d json_type (serialize r json) (request lib info d verb url query w)

-- The document that is assigned to, and whether it is JSON.
abbrev pub parsed : {J : Type 0} → J → Option J → J × Bool
parsed discarded none = (discarded, false)
parsed discarded (some json) = (json, true)

-- The documents that the caller had are the last arguments.
module _ {J : Type 0} where
  unfoldable pub get_json : Nlohmann J → Wrapper Http → J → J × Bool
  unfolding is_running
  get_json n w json =
      if is_running w then (json, false) else parsed n.discarded (n.parse w.base.response_body)

  -- HTTP::response::get_json
  unfoldable pub response_get_json : Nlohmann J → Response → J → J × Bool
  response_get_json n r json = parsed n.discarded (n.parse r.body)

  unfoldable pub get_document : Rapidjson J → Wrapper Http → J → J × Bool
  unfolding is_running
  get_document n w json =
      if is_running w
      then (json, false)
      else (let (json1, failed) = n.parse (c_str w.base.response_body) in (json1, not failed))

  unfoldable pub response_get_document : Rapidjson J → Response → J → J × Bool
  response_get_document n r json =
      let (json1, failed) = n.parse (c_str r.body) in (json1, not failed)
