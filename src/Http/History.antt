-- ===== src/Http/History.antt =====
-- Over the whole life of an HTTP object: src/http.cpp and include/wrapper.hpp.
use curlev.Prelude.{ℕ, Bool, List, [], ◌∷◌, refl, Bytes}
use curlev.Prelude.Int.{ℤ}
use curlev.MapUtils.{KeyValues, append_url_encoded}
use curlev.Libcurl.{Libcurl, SlistAppends}
use curlev.Mime.{Part}
use curlev.Transfer.{Base}
use curlev.Defaults.{Defaults}
use curlev.Wrapper.{Wrapper, create, async_cb}
use curlev.Wrapper.Idle.{Call, perform}
use curlev.Http.{
  Http, Info, fresh, http, request, add_headers, set_body, set_parameters, set_mime, take_response,
}
use curlev.Http.Headers.{
  NoInjection, request-NoInjection, add_headers-NoInjection, set_body-NoInjection,
  set_mime-NoInjection, config-NoInjection, async_cb-NoInjection,
}

-- A call of the user, or what ASync and libcurl's callbacks do: `transferred` gives the new base.
pub data Event : Type 0 where
  call : Call → Event
  requested : (method url : Bytes) → KeyValues → Event
  headers_added : KeyValues → Event
  body_set : (content_type body : Bytes) → Event
  parameters_set : KeyValues → Event
  mime_set : List Part → Event
  transferred : Base → Event
  completed : Info → ℤ → Event
  response_taken : Event

module _ (lib : Libcurl) (info : Info) (d : Defaults) (throws : ℕ → Bool) where
  unfoldable pub handle : Event → Wrapper Http → Wrapper Http
  handle (call c) w = perform (http lib info) lib throws c w
  handle (requested method url query) w = request lib info d method url query w
  handle (headers_added ps) w = add_headers lib info d ps w
  handle (body_set content_type body) w = set_body lib info d content_type body w
  handle (parameters_set ps) w = set_parameters lib info d ps w
  handle (mime_set parts) w = set_mime lib info d parts w
  handle (transferred b) w = record w { base = b }
  handle (completed i result) w = async_cb (http lib i) throws result w
  handle response_taken w = (take_response w).1

  unfoldable pub live : List Event → Wrapper Http → Wrapper Http
  live [] w = w
  live (e ∷ es) w = live es (handle e w)

module _ (lib : Libcurl) (appends : SlistAppends lib) (info : Info) (d : Defaults) where
  handle-NoInjection :
      (throws : ℕ → Bool) (e : Event) (w : Wrapper Http)
      → NoInjection w
      → NoInjection (handle lib info d throws e w)
  unfolding handle set_parameters take_response
  handle-NoInjection throws (call c) w a = config-NoInjection lib appends info d c throws w a
  handle-NoInjection throws (requested method url query) w a =
      request-NoInjection lib appends info d method url query w a
  handle-NoInjection throws (headers_added ps) w a =
      add_headers-NoInjection lib appends info d ps w a
  handle-NoInjection throws (body_set content_type body) w a =
      set_body-NoInjection lib appends info d content_type body w a
  handle-NoInjection throws (parameters_set ps) w a =
      set_body-NoInjection lib appends info d _ (append_url_encoded [] ps 0 b'&') w a
  handle-NoInjection throws (mime_set parts) w a = set_mime-NoInjection lib appends info d parts w a
  handle-NoInjection throws (transferred b) w a = a
  handle-NoInjection throws (completed i result) w a =
      async_cb-NoInjection lib appends i d throws result w a
  handle-NoInjection throws response_taken w a = a

  live-NoInjection :
      (throws : ℕ → Bool) (es : List Event) (w : Wrapper Http)
      → NoInjection w
      → NoInjection (live lib info d throws es w)
  unfolding live
  live-NoInjection throws [] w a = a
  live-NoInjection throws (e ∷ es) w a =
      live-NoInjection throws es (handle lib info d throws e w) (handle-NoInjection throws e w a)

  -- Whatever is done with an HTTP object after its creation on a fresh handle, and whatever the
  -- transfers bring: no line of its header list, and no line of a header list that was ever set on
  -- its handle, holds a CR, an LF or a NUL. libcurl's lists are assumed to grow at their end.
  pub life-NoInjection :
      (throws : ℕ → Bool) (safe : Bytes) (es : List Event)
      → NoInjection (live lib info d throws es (create [] fresh safe))
  life-NoInjection throws safe es = live-NoInjection throws es (create [] fresh safe) (refl, refl)
