-- ===== src/Options/Set.antt =====
-- `Options::set` of src/options.cpp.
use curlev.Prelude.{Bool, true, false, List, ◌∷◌, ◌++◌, ◌≡◌, arith, Bytes, All}
use curlev.StringUtils.Cskv.{IsPair, write_cskv, run_pairs, parse_cskv_stops}
use curlev.Options.{Options, set_option, set}

-- A pair that is refused changes no option.
pub set_option_refused :
    (o : Options) (key value : Bytes)
    → (set_option o key value).1 ≡ false
    → (set_option o key value).0 ≡ o
unfolding set_option
set_option_refused o key value h = ground arith

pair_eta : (r : Options × Bool) (o : Options) (b : Bool) → r.0 ≡ o → r.1 ≡ b → r ≡ (o, b)
pair_eta r o b p q = λ i. (p i, q i)

-- Of a list with a pair that is refused, `set` keeps the pairs before it, drops those behind it,
-- and reports the failure. The pairs are such as can be written in a list.
set_stops :
    (ps qs : List (Bytes × Bytes)) (bad : Bytes × Bytes) (o next : Options)
    → All IsPair (ps ++ (bad ∷ qs))
    → run_pairs set_option ps o ≡ (next, true)
    → (set_option next bad.0 bad.1).1 ≡ false
    → set (write_cskv (ps ++ (bad ∷ qs))) o ≡ (next, false)
unfolding set
set_stops ps qs bad o next v done refused = parse_cskv_stops set_option ps qs bad o next v done (
    pair_eta (set_option next bad.0 bad.1) next false (set_option_refused next bad.0 bad.1 refused)
      refused)
