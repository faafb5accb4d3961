-- ===== src/Smtp/History.antt =====
-- Over the whole life of an SMTP object: src/smtp.cpp and include/wrapper.hpp.
use curlev.Prelude.{ℕ, Bool, List, [], ◌∷◌, refl, Bytes}
use curlev.Prelude.Int.{ℤ}
use curlev.MapUtils.{KeyValues}
use curlev.Libcurl.{Libcurl, SlistAppends}
use curlev.Mime.{Part}
use curlev.SmtpAddress.{Address}
use curlev.Transfer.{Base}
use curlev.Defaults.{Defaults}
use curlev.Wrapper.{Wrapper, create, async_cb}
use curlev.Wrapper.Idle.{Call, perform}
use curlev.Smtp.{Smtp, fresh, smtp, send, add_headers, set_body, set_mime}
use curlev.Smtp.Headers.{NoInjection}
use curlev.Smtp.Operations.{
  send-NoInjection, add_headers-NoInjection, set_body-NoInjection, set_mime-NoInjection,
  config-NoInjection, async_cb-NoInjection,
}

-- A call of the user, or what ASync and libcurl's callbacks do: `transferred` gives the new base.
pub data Event : Type 0 where
  call : Call → Event
  sent : (url : Bytes) → Address → Event
  headers_added : KeyValues → Event
  body_set : List Address → (body : Bytes) → Event
  mime_set : List Address → (subject : Bytes) → List Part → Event
  transferred : Base → Event
  completed : ℤ → Event

module _ (lib : Libcurl) (date : Bytes) (d : Defaults) (throws : ℕ → Bool) where
  unfoldable pub handle : Event → Wrapper Smtp → Wrapper Smtp
  handle (call c) w = perform (smtp lib) lib throws c w
  handle (sent url from) w = send lib date d url from w
  handle (headers_added ps) w = add_headers lib date d ps w
  handle (body_set to body) w = set_body lib date d to body w
  handle (mime_set to subject parts) w = set_mime lib date d to subject parts w
  handle (transferred b) w = record w { base = b }
  handle (completed result) w = async_cb (smtp lib) throws result w

  unfoldable pub live : List Event → Wrapper Smtp → Wrapper Smtp
  live [] w = w
  live (e ∷ es) w = live es (handle e w)

module _ (lib : Libcurl) (appends : SlistAppends lib) (date : Bytes) (d : Defaults) where
  handle-NoInjection :
      (throws : ℕ → Bool) (e : Event) (w : Wrapper Smtp)
      → NoInjection w
      → NoInjection (handle lib date d throws e w)
  unfolding handle
  handle-NoInjection throws (call c) w a = config-NoInjection lib appends date d c throws w a
  handle-NoInjection throws (sent url from) w a = send-NoInjection lib appends date d url from w a
  handle-NoInjection throws (headers_added ps) w a =
      add_headers-NoInjection lib appends date d ps w a
  handle-NoInjection throws (body_set to body) w a =
      set_body-NoInjection lib appends date d to body w a
  handle-NoInjection throws (mime_set to subject parts) w a =
      set_mime-NoInjection lib appends date d to subject parts w a
  handle-NoInjection throws (transferred b) w a = a
  handle-NoInjection throws (completed result) w a =
      async_cb-NoInjection lib appends date d throws result w a

  live-NoInjection :
      (throws : ℕ → Bool) (es : List Event) (w : Wrapper Smtp)
      → NoInjection w
      → NoInjection (live lib date d throws es w)
  unfolding live
  live-NoInjection throws [] w a = a
  live-NoInjection throws (e ∷ es) w a =
      live-NoInjection throws es (handle lib date d throws e w) (handle-NoInjection throws e w a)

  -- Whatever is done with an SMTP object after its creation on a fresh handle: no line of its
  -- header list, and no line of a header list that was ever set on its handle, holds a CR, an LF or
  -- a NUL. libcurl's lists are assumed to grow at their end.
  pub mail-NoInjection :
      (throws : ℕ → Bool) (safe : Bytes) (es : List Event)
      → NoInjection (live lib date d throws es (create [] fresh safe))
  mail-NoInjection throws safe es = live-NoInjection throws es (create [] fresh safe) (refl, refl)
