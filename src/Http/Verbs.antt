-- ===== src/Http/Verbs.antt =====
-- The methods of include/http.hpp that stand for one verb.
use curlev.Prelude.{Bytes, codes}
use curlev.MapUtils.{KeyValues}
use curlev.Libcurl.{Libcurl}
use curlev.Defaults.{Defaults}
use curlev.Wrapper.{Wrapper}
use curlev.Http.{Http, Info, request}

module _ (lib : Libcurl) (info : Info) (d : Defaults) where
  unfoldable pub get : Bytes → KeyValues → Wrapper Http → Wrapper Http
  unfolding request
  get url qp = request lib info d (codes "GET") url qp

  unfoldable pub delete : Bytes → KeyValues → Wrapper Http → Wrapper Http
  unfolding request
  delete url qp = request lib info d (codes "DELETE") url qp

  unfoldable pub patch : Bytes → KeyValues → Wrapper Http → Wrapper Http
  unfolding request
  patch url qp = request lib info d (codes "PATCH") url qp

  unfoldable pub post : Bytes → KeyValues → Wrapper Http → Wrapper Http
  unfolding request
  post url qp = request lib info d (codes "POST") url qp

  unfoldable pub put : Bytes → KeyValues → Wrapper Http → Wrapper Http
  unfolding request
  put url qp = request lib info d (codes "PUT") url qp
