-- ===== src/Building.antt =====
-- What HTTP::add_headers, set_mime and their SMTP counterparts share: src/http.cpp and
-- src/smtp.cpp.
pub mod Settings
pub mod Safety
pub mod Wires
use curlev.Prelude.{
  Bool, true, false, Option, none, some, List, [], ◌∷◌, if◌then◌else◌, and_then, Bytes,
}
use curlev.Prelude.Int.{ℤ}
use curlev.MapUtils.{KeyValues}
use curlev.Libcurl.{Libcurl, Easy, set_to, mime, mimepost}
use curlev.CurlUtils.{curl_header_checked_append, easy_setopt}
use curlev.Mime
use curlev.Mime.{Part, Calls}
use curlev.Wrapper.{Wrapper, is_success}

-- `if ( ! ok && m_response_code == c_success ) m_response_code = code`
abbrev pub or_fail : {P : Type 0} → ℤ → Wrapper P × Bool → Wrapper P
or_fail code (w, true) = w
or_fail code (w, false) =
    if is_success w.response_code then record w { response_code = code } else w

-- The loop of `add_headers`.
unfoldable pub append_headers : Libcurl → List Bytes → KeyValues → List Bytes × Bool
append_headers lib headers [] = (headers, true)
append_headers lib headers ((key, value) ∷ ps) =
    and_then (curl_header_checked_append lib headers key value) λ hs. append_headers lib hs ps

-- curl_mime_init, mime::apply and CURLOPT_MIMEPOST: the new m_curl_mime, the handle and `ok`.
unfoldable pub post_mime : Libcurl → Easy → List Part → (Option Calls × Easy) × Bool
post_mime lib h parts =
    if lib.mime_init h
    then (let (calls, applied) = Mime.apply lib parts [] in
        if applied
        then (let (h', ok) = easy_setopt lib h (set_to mimepost mime) in ((some calls, h'), ok))
        else ((some calls, h), false))
    else ((none, h), false)
