-- ===== src/System/Handles.antt =====
-- The handle that ASync::get_handle of src/async.cpp gave an object, over the object's whole life.
use curlev.Prelude.{ℕ, Bool, List, some, ◌≡◌, Bytes}
use curlev.Libcurl.{Libcurl}
use curlev.Defaults.{Defaults}
use curlev.Wrapper.{Wrapper}
use curlev.Wrapper.Create.{try_create, IsWired}
use curlev.Http
use curlev.Http.{Http, Info}
use curlev.Http.History as HttpHistory
use curlev.Http.Wired.{life-IsWired}
use curlev.Smtp
use curlev.Smtp.{Smtp}
use curlev.Smtp.History as SmtpHistory
use curlev.Smtp.Wired.{mail-IsWired}

-- Whatever is done with an HTTP and an SMTP object after `create` returned them, and however
-- their transfers end, the handle of each calls the four callbacks of ASync, each for that object,
-- shares the data of ASync and takes no signals.
pub handles-IsWired :
    (lib : Libcurl) (d : Defaults) (throws : ℕ → Bool) (init_ok : Bool) (safe : Bytes) (info : Info)
    (date : Bytes) (es : List HttpHistory.Event) (fs : List SmtpHistory.Event) (h : Wrapper Http)
    (s : Wrapper Smtp)
    → try_create lib init_ok Http.fresh safe ≡ some h
    → try_create lib init_ok Smtp.fresh safe ≡ some s
    → IsWired (HttpHistory.live lib info d throws es h).curl
      × IsWired (SmtpHistory.live lib date d throws fs s).curl
handles-IsWired lib d throws init_ok safe info date es fs h s e f = (
  life-IsWired lib info d throws init_ok safe es h e,
  mail-IsWired lib date d throws init_ok safe fs s f,
)
