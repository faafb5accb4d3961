-- ===== src/Tests/Jsons.antt =====
-- JSON bodies: src/http_json.cpp.
use curlev.Prelude.{true, some, [], ◌≡◌, refl, codes, Bytes}
use curlev.Wrapper.{Wrapper}
use curlev.Wrapper as Wrapper
use curlev.Http.{Http, take_response}
use curlev.Json.{Nlohmann, rest, get_json, response_get_json}
use curlev.Json.RoundTrip.{rest-get_json}
use curlev.Tests.Data.{willing, plain_text, defaults, object}

-- A JSON library whose documents are their texts.
abbrev texts : Nlohmann Bytes
texts = record { dump = λ j. j; parse = λ s. some s; discarded = [] }

abbrev document : Bytes
document = codes "[1]"

-- The server returns the body of the request.
abbrev answered : Wrapper Http
answered = record object {
  base = record (object.base) {
    response_body =
        (rest willing plain_text defaults texts (codes "http://a") (codes "PUT") document []
          object).base.request_body;
  };
}

rest-get_json_example :
    ((rest willing plain_text defaults texts
        (codes "http://a")
        (codes "PUT")
        document
        []
        object).base.request_body
      ≡ document)
    × (get_json texts answered [] ≡ (document, true))
    × (response_get_json texts (take_response answered).0 [] ≡ (document, true))
unfolding Wrapper.is_running
rest-get_json_example =
    rest-get_json willing plain_text defaults texts (codes "http://a") (codes "PUT") document [] []
      object answered refl refl refl
