-- ===== src/Tests/Text.antt =====
-- Texts: src/utils.
use curlev.Prelude.{◌≡◌, some, [], ◌∷◌, ◌++◌, refl, arith, codes, Bytes, if◌then◌else◌}
use curlev.StringUtils.{svtol, parse_cskv}
use curlev.StringUtils.Cskv.{parse_cskv-write, IsPair, write_cskv, run_pairs}
use curlev.StringUtils.Unsigned.{decimal}
use curlev.StringUtils.Signed.{svtol_exact, read_signed}
use curlev.MapUtils.{lookup_ci, insert_or_assign, append_url_encoded, append_separator}
use curlev.MapUtils.Hash.{is_spelling, lookup_ci-insert_or_assign}
use curlev.MapUtils.Query.{append_url_encoded-parse_query, parse_query, ampersand}
use curlev.Options.{set_option, initial}
use curlev.SmtpAddress.{Address, cc, parse, get_name_addr}
use curlev.SmtpAddress.RoundTrip.{parse-get_name_addr}

svtol_exact_example : svtol (codes "-12") ≡ read_signed (codes "-12")
unfolding decimal
svtol_exact_example = svtol_exact (codes "-12") (omega arith)

abbrev cookies : Bytes × Bytes
cookies = (codes "cookies", codes "1")

abbrev unknown : Bytes × Bytes
unknown = (codes "speed", codes "9")

abbrev insecure : Bytes × Bytes
insecure = (codes "insecure", codes "1")

cookies-IsPair : IsPair cookies
cookies-IsPair = record {
  plain_key = refl;
  plain_value = refl;
  trimmed_key = (refl, refl);
  trimmed_value = (refl, refl);
}

unknown-IsPair : IsPair unknown
unknown-IsPair = record {
  plain_key = refl;
  plain_value = refl;
  trimmed_key = (refl, refl);
  trimmed_value = (refl, refl);
}

insecure-IsPair : IsPair insecure
insecure-IsPair = record {
  plain_key = refl;
  plain_value = refl;
  trimmed_key = (refl, refl);
  trimmed_value = (refl, refl);
}

parse_cskv-write_example :
    parse_cskv set_option (write_cskv (cookies ∷ insecure ∷ [])) initial
    ≡ run_pairs set_option (cookies ∷ insecure ∷ []) initial
parse_cskv-write_example =
    parse_cskv-write set_option (cookies ∷ insecure ∷ []) initial
      (cookies-IsPair, (insecure-IsPair, tt))

lookup_ci-insert_or_assign_example :
    lookup_ci
      (codes "AGE")
      (insert_or_assign (codes "Age") (codes "7") ((codes "Via", codes "x") ∷ []))
    ≡ (if is_spelling (codes "Age") (codes "AGE")
        then some (codes "7")
        else lookup_ci (codes "AGE") ((codes "Via", codes "x") ∷ []))
lookup_ci-insert_or_assign_example =
    lookup_ci-insert_or_assign (codes "Age") (codes "AGE") (codes "7")
      ((codes "Via", codes "x") ∷ []) refl refl refl

append_url_encoded-parse_query_example :
    (q : Bytes) × (append_url_encoded
        (codes "http://a")
        ((codes "k", codes "a=b&c") ∷ [])
        b'?'
        ampersand
      ≡ append_separator (codes "http://a") b'?' ++ q)
    × (parse_query q ≡ some ((codes "k", codes "a=b&c") ∷ []))
append_url_encoded-parse_query_example =
    append_url_encoded-parse_query (codes "http://a") (codes "k", codes "a=b&c") [] b'?'
      ((ground arith, ground arith), tt)

abbrev doe : Address
doe = record { display_name = codes "J. Doe"; address_spec = codes "doe@a.fr"; mode = cc }

parse-get_name_addr_example : parse (get_name_addr doe) cc ≡ doe
parse-get_name_addr_example = parse-get_name_addr doe (record {
  plain_name = refl;
  plain_spec = refl;
  trimmed_name = (refl, refl);
  trimmed_spec = (refl, refl);
})
