-- ===== src/Tests/Protocols.antt =====
-- HTTP and SMTP objects: src/http.cpp and src/smtp.cpp.
use curlev.Prelude.{true, List, [], ◌∷◌, ◌++◌, ◌≡◌, refl, codes, Bytes}
use curlev.Prelude.Int.{pos}
use curlev.Libcurl.{CurlOption}
use curlev.Libcurl as Curl
use curlev.CurlUtils.{curl_header_checked_append, curl_slist_checked_append}
use curlev.StringUtils.{is_safe_header_component}
use curlev.SmtpAddress.{Address, to, bcc, get_name_addr, get_addr_spec}
use curlev.Wrapper.{create}
use curlev.Wrapper.Idle.{start_with}
use curlev.Http
use curlev.Http.Headers as HttpHeaders
use curlev.Http.History as HttpHistory
use curlev.Http.History.{life-NoInjection}
use curlev.Smtp
use curlev.Smtp.{message_headers, append_recipients, append_names}
use curlev.Smtp.Headers as SmtpHeaders
use curlev.Smtp.History as SmtpHistory
use curlev.Smtp.History.{mail-NoInjection}
use curlev.Smtp.Message.{message_headers-written, written}
use curlev.Prelude.{none}
use curlev.CurlUtils.{set_all}
use curlev.CurlUtils.Settings.{logged}
use curlev.Wrapper.{Wrapper}
use curlev.Wrapper.Create.{get_handle, try_create, handle_settings, IsWired}
use curlev.System.Handles.{handles-IsWired}
use curlev.Tests.Data.{willing, willing-SlistAppends, plain_text, never, defaults}

-- A value that would begin a second header.
abbrev injected : Bytes
injected = codes "1" ++ (13 ∷ 10 ∷ codes "Cookie: x")

abbrev browsing : List HttpHistory.Event
browsing =
    HttpHistory.requested (codes "POST") (codes "http://a") ((codes "q", codes "1") ∷ [])
    ∷ HttpHistory.headers_added ((codes "A", codes "1") ∷ (codes "B", injected) ∷ [])
    ∷ HttpHistory.body_set (codes "text/plain") (codes "hello")
    ∷ HttpHistory.call (start_with none true)
    ∷ HttpHistory.completed plain_text (pos 200)
    ∷ []

life-NoInjection_example : HttpHeaders.NoInjection (
    HttpHistory.live willing plain_text defaults never browsing
      (create [] Http.fresh (codes "https")))
life-NoInjection_example =
    life-NoInjection willing willing-SlistAppends plain_text defaults never (codes "https") browsing

abbrev ann : Address
ann = record { display_name = codes "Ann"; address_spec = codes "ann@a.fr"; mode = to }

abbrev bob : Address
bob = record { display_name = []; address_spec = codes "bob@a.fr"; mode = bcc }

abbrev date : Bytes
date = codes "Mon, 01 Jan 2024 00:00:00 +0000"

abbrev mailing : List SmtpHistory.Event
mailing =
    SmtpHistory.sent (codes "smtp://a") ann
    ∷ SmtpHistory.headers_added ((codes "B", injected) ∷ [])
    ∷ SmtpHistory.mime_set (bob ∷ []) injected []
    ∷ SmtpHistory.call (start_with none true)
    ∷ SmtpHistory.completed (pos 250)
    ∷ []

mail-NoInjection_example :
    SmtpHeaders.NoInjection
      (SmtpHistory.live willing date defaults never mailing (create [] Smtp.fresh (codes "smtps")))
mail-NoInjection_example =
    mail-NoInjection willing willing-SlistAppends date defaults never (codes "smtps") mailing

message_headers-written_example :
    (message_headers willing date defaults (codes "Hi") ann (ann ∷ bob ∷ []) []).0
    ≡ [] ++ written date (codes "Hi") ann (ann ∷ bob ∷ [])
unfolding message_headers curl_header_checked_append curl_slist_checked_append
    is_safe_header_component get_name_addr get_addr_spec append_names
message_headers-written_example =
    message_headers-written willing willing-SlistAppends date defaults (codes "Hi") ann
      (ann ∷ bob ∷ []) [] refl

-- What `create` gives where libcurl takes all its options.
abbrev ready : {P : Type 0} → P → Wrapper P
ready protocol = create (logged handle_settings []) protocol (codes "https,smtps")

handles-IsWired_example :
    IsWired (HttpHistory.live willing plain_text defaults never browsing (ready Http.fresh)).curl
    × IsWired (SmtpHistory.live willing date defaults never mailing (ready Smtp.fresh)).curl
unfolding try_create get_handle set_all
handles-IsWired_example =
    handles-IsWired willing defaults never true (codes "https,smtps") plain_text date browsing
      mailing (ready Http.fresh) (ready Smtp.fresh) refl refl
