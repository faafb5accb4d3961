-- ===== src/Smtp/Headers.antt =====
-- The header lists of an SMTP object, and the functions that fill them: src/smtp.cpp.
use curlev.Prelude.{Bool, true, false, List, [], ◌∷◌, arith, and_then, Bytes, codes}
use curlev.Libcurl.{Easy, Libcurl, SlistAppends}
use curlev.CurlUtils.{curl_header_checked_append}
use curlev.CurlUtils.Headers.{AreSafe, header_append-AreSafe}
use curlev.SmtpAddress.{Address, get_name_addr}
use curlev.Mime.{Part}
use curlev.Transfer
use curlev.Defaults.{Defaults}
use curlev.Building.Safety.{
  IsSafe, prepare_request_body-IsSafe, prepare_request_body-protocol, post_mime-IsSafe,
}
use curlev.Wrapper.{Wrapper}
use curlev.Wrapper.Preserved.{Holds}
use curlev.Smtp.{
  Smtp, prefix, append_names, message_headers, with_recipients, with_headers, fill_recipients,
  fill_headers, fill_body_mime, fill_body,
}

-- The list under construction and all that was set on the handle are safe.
abbrev pub Safe : Easy → Smtp → Type 0
Safe h p = AreSafe p.curl_headers × IsSafe h

abbrev pub NoInjection : Wrapper Smtp → Type 0
NoInjection w = Holds Safe w

then-AreSafe :
    (r : List Bytes × Bool) (next : List Bytes → List Bytes × Bool)
    → AreSafe r.0
    → ((hs : List Bytes) → AreSafe hs → AreSafe (next hs).0)
    → AreSafe (and_then r next).0
then-AreSafe (hs, true) next a f = f hs a
then-AreSafe (hs, false) next a f = a

module _ (lib : Libcurl) (appends : SlistAppends lib) (date : Bytes) (d : Defaults) where
  append_names-AreSafe :
      (headers : List Bytes) (to : List Address)
      → AreSafe headers
      → AreSafe (append_names lib date d headers to).0
  unfolding append_names
  append_names-AreSafe headers [] a = a
  append_names-AreSafe headers (r ∷ to) a =
      then-AreSafe (curl_header_checked_append lib headers (prefix r.mode) (get_name_addr r))
        (λ hs. append_names lib date d hs to)
        (header_append-AreSafe lib appends headers (prefix r.mode) (get_name_addr r) a)
        λ hs b. append_names-AreSafe hs to b

  message_headers-AreSafe :
      (subject : Bytes) (from : Address) (to : List Address) (headers : List Bytes)
      → AreSafe headers
      → AreSafe (message_headers lib date d subject from to headers).0
  unfolding message_headers
  message_headers-AreSafe subject from to headers a =
      let subject_on =
        λ (hs : List Bytes). curl_header_checked_append lib hs (codes "Subject") subject in
      let from_on = λ (hs : List Bytes).
        curl_header_checked_append lib hs (codes "From") (get_name_addr from) in
      let names_on = λ (hs : List Bytes). append_names lib date d hs to in
      then-AreSafe (curl_header_checked_append lib headers (codes "Date") date)
        (λ hs. and_then (subject_on hs) λ hs. and_then (from_on hs) names_on)
        (header_append-AreSafe lib appends headers (codes "Date") date a)
        λ h1 a1.
          then-AreSafe (subject_on h1) (λ hs. and_then (from_on hs) names_on)
            (header_append-AreSafe lib appends h1 (codes "Subject") subject a1)
            λ h2 a2.
              then-AreSafe (from_on h2) names_on
                (header_append-AreSafe lib appends h2 (codes "From") (get_name_addr from) a2)
                λ h3 a3. append_names-AreSafe h3 to a3

  pub fill_recipients-NoInjection :
      (to : List Address) (w : Wrapper Smtp)
      → NoInjection w
      → NoInjection (fill_recipients lib date d to w).0
  unfolding fill_recipients with_recipients
  fill_recipients-NoInjection to w a = ground arith

  pub fill_headers-NoInjection :
      (subject : Bytes) (from : Address) (to : List Address) (w : Wrapper Smtp)
      → NoInjection w
      → NoInjection (fill_headers lib date d subject from to w).0
  unfolding fill_headers with_headers
  fill_headers-NoInjection subject from to w (a, b) =
      ground (arith, message_headers-AreSafe subject from to w.protocol.curl_headers a)

  pub fill_body_mime-NoInjection :
      (parts : List Part) (w : Wrapper Smtp)
      → NoInjection w
      → NoInjection (fill_body_mime lib date d parts w).0
  unfolding fill_body_mime
  fill_body_mime-NoInjection parts w (a, b) = ground (arith, post_mime-IsSafe lib w.curl parts b)

  pub fill_body-NoInjection :
      (body : Bytes) (w : Wrapper Smtp)
      → NoInjection w
      → NoInjection (fill_body lib date d body w).0
  unfolding fill_body
  fill_body-NoInjection body w (a, b) =
      let v : Wrapper Smtp = record w { base = Transfer.set_request_body body w.base } in
      ground (arith, prepare_request_body-IsSafe lib v b, prepare_request_body-protocol lib v)
