-- ===== src/Tests/Handle.antt =====
-- Settings and MIME documents: src/options.cpp, src/authentication.cpp, src/certificates.cpp,
-- src/mime.cpp, src/utils/curl_utils.cpp.
use curlev.Prelude.{◌+◌, List, [], ◌∷◌, ◌++◌, ◌≡◌, refl, codes, Bytes}
use curlev.Libcurl.{Easy}
use curlev.CurlUtils.{set_all}
use curlev.Options
use curlev.Options.Apply.{Holds, apply-Holds}
use curlev.Authentication
use curlev.Authentication.{Authentication, basic}
use curlev.Authentication.Apply.{Grants, apply-Grants}
use curlev.Certificates
use curlev.Certificates.Apply.{Trusts, apply-Trusts}
use curlev.Mime
use curlev.Mime.{Part, Alternative, parameter, single, alternatives, Calls, read_alternatives}
use curlev.Mime.Document.{apply-document, document, made}
use curlev.Mime.Ownership.{read_alternatives_owned, count, is_init, is_free, frees}
use curlev.Tests.Data.{willing}

abbrev options_handle : Easy
options_handle = (Options.apply willing Options.set_default []).0

apply-Holds_example : Holds Options.set_default options_handle
unfolding Options.apply set_all
apply-Holds_example = apply-Holds willing Options.set_default [] options_handle refl

abbrev user : Authentication
user = record { mode = basic; user = codes "ann"; secret = codes "x" }

abbrev user_handle : Easy
user_handle = (Authentication.apply willing user []).0

apply-Grants_example : Grants basic (codes "ann") (codes "x") [] user_handle
unfolding Authentication.apply Authentication.settings set_all
apply-Grants_example = apply-Grants willing user [] user_handle refl

abbrev trusted : Certificates.Certificates
trusted = Certificates.set_default (codes "/etc/ca.pem") []

abbrev trusted_handle : Easy
trusted_handle = (Certificates.apply willing trusted []).0

apply-Trusts_example : Trusts trusted [] trusted_handle
unfolding Certificates.apply set_all
apply-Trusts_example = apply-Trusts willing trusted [] trusted_handle refl

abbrev field : Alternative
field = parameter (codes "a") (codes "1")

abbrev parts : List Part
parts = single field ∷ alternatives (field ∷ field ∷ []) ∷ []

apply-document_example : (Mime.apply willing parts []).0 ≡ made (document parts) []
unfolding Mime.apply
apply-document_example = apply-document willing parts [] (Mime.apply willing parts []).0 refl

read_alternatives_owned_example :
    (count is_init (read_alternatives willing (field ∷ []) []).0 ≡ count is_init [] + 1)
    × (count is_free (read_alternatives willing (field ∷ []) []).0
        ≡ count is_free [] + frees willing (read_alternatives willing (field ∷ []) []).1)
read_alternatives_owned_example = read_alternatives_owned willing (field ∷ []) []

-- A value that would begin a second header.
abbrev injected : Bytes
injected = codes "1" ++ (13 ∷ 10 ∷ codes "Cookie: x")
