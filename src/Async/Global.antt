-- ===== src/Async/Global.antt =====
-- What an instance of ASync holds of libcurl's global state: src/async.cpp.
use curlev.Prelude.{
  ℕ, ◌+◌, ◌-◌, Bool, true, false, ◌||◌, List, [], ◌∷◌, ltb, ◌==◌, if◌then◌else◌, ◌≡◌, arith,
}
use curlev.Async.Lifecycle.{flag}

-- m_global_count, and how often libcurl is initialized, by all of the program.
pub record Global : Type 0 where
  pub count : ℕ
  pub initialized : ℕ

-- libcurl counts: only its first initialization can fail.
unfoldable pub curl_global_init : Bool → ℕ → ℕ × Bool
curl_global_init ok n = if ok || ltb 0 n then (n + 1, true) else (n, false)

-- curl_global_cleanup does nothing when libcurl is not initialized.
abbrev pub curl_global_cleanup : ℕ → ℕ
curl_global_cleanup n = n - 1

-- `ca_ok`: `get_default_ca` succeeds, which runs when libcurl is initialized.
abbrev pub first_init : ℕ × Bool → Bool → Global → Global × Bool
first_init (n, true) true g = (record g { initialized = n; count = g.count + 1 }, true)
first_init (n, true) false g = (record g { initialized = curl_global_cleanup n }, false)
first_init (n, false) ca_ok g = (record g { initialized = curl_global_cleanup n }, false)

unfoldable pub global_init : Bool → Bool → Global → Global × Bool
unfolding curl_global_init
global_init init_ok ca_ok g =
    if g.count == 0
    then first_init (curl_global_init init_ok g.initialized) ca_ok g
    else (record g { count = g.count + 1 }, true)

unfoldable pub global_clear : Global → Global
global_clear g =
    if ltb 0 g.count
    then (if g.count == 1
        then record { count = 0; initialized = curl_global_cleanup g.initialized }
        else record g { count = g.count - 1 })
    else g

pub data Event : Type 0 where
  inits : (init_ok ca_ok : Bool) → Event
  clears : Event

unfoldable pub handle : Event → Global → Global
handle (inits init_ok ca_ok) g = (global_init init_ok ca_ok g).0
handle clears g = global_clear g

unfoldable pub run : List Event → Global → Global
run [] g = g
run (e ∷ es) g = run es (handle e g)

-- The instance holds one initialization of libcurl exactly while its count is positive, beside the
-- `others` of the program.
abbrev pub IsCounted : ℕ → Global → Type 0
IsCounted others g = g.initialized ≡ others + flag (ltb 0 g.count)

pub init-IsCounted :
    (others : ℕ) (init_ok ca_ok : Bool) (g : Global)
    → IsCounted others g
    → IsCounted others (global_init init_ok ca_ok g).0
unfolding global_init curl_global_init
init-IsCounted others true true g u = ground arith
init-IsCounted others true false g u = ground arith
init-IsCounted others false true g u = ground arith
init-IsCounted others false false g u = ground arith

pub clear-IsCounted :
    (others : ℕ) (g : Global) → IsCounted others g → IsCounted others (global_clear g)
unfolding global_clear
clear-IsCounted others g u = ground arith

run-IsCounted :
    (others : ℕ) (es : List Event) (g : Global) → IsCounted others g → IsCounted others (run es g)
unfolding run handle
run-IsCounted others [] g u = u
run-IsCounted others (inits init_ok ca_ok ∷ es) g u =
    run-IsCounted others es _ (init-IsCounted others init_ok ca_ok g u)
run-IsCounted others (clears ∷ es) g u = run-IsCounted others es _ (clear-IsCounted others g u)

-- Whatever the calls of `global_init` and `global_clear` of one instance, libcurl is initialized
-- as often as by the rest of the program, and once more exactly while the instance's count is
-- positive.
pub run-initialized :
    (others : ℕ) (es : List Event)
    → let g = run es (record { count = 0; initialized = others }) in
      g.initialized ≡ others + (if ltb 0 g.count then 1 else 0)
run-initialized others es =
    run-IsCounted others es (record { count = 0; initialized = others }) (omega arith)
