-- ===== src/Tests/Data.antt =====
-- A libcurl that takes everything, and what the tests share.
use curlev.Prelude.{ℕ, Bool, true, false, none, some, [], ◌∷◌, ◌++◌, arith, codes}
use curlev.Libcurl.{Libcurl, SlistAppends}
use curlev.Defaults.{Defaults, at_start}
use curlev.Wrapper.{Wrapper, create}
use curlev.Http.{Http, Info, fresh}

abbrev pub willing : Libcurl
willing = record {
  setopt = λ h s. true;
  slist_append = λ l s. some (l ++ (s ∷ []));
  mime_ok = λ t c. true;
  mime_init = λ h. true;
}

pub willing-SlistAppends : SlistAppends willing
willing-SlistAppends l s l' e = ground arith

abbrev pub defaults : Defaults
defaults = at_start (codes "/etc/ca.pem") []

abbrev pub plain_text : Info
plain_text = record { content_type = some (codes "text/plain"); redirect_url = none }

abbrev pub never : ℕ → Bool
never c = false

abbrev pub object : Wrapper Http
object = create [] fresh (codes "http,https")
