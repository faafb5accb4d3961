-- ===== src/SmtpAddress/RoundTrip.antt =====
-- Addresses of src/smtp.cpp, written and read back.
use curlev.Prelude.{
  subst, suc, ◌+◌, ◌-◌, ◌≡◌, refl, ap, sym, ◌∙◌, true, not, ◌&&◌, some, [], ◌∷◌, ◌++◌, append_assoc,
  arith, ◌==◌, if◌then◌else◌, is_empty, length, all, all-append, take-append, drop-append, Bytes,
  codes,
}
use curlev.StringUtils.{find, trim}
use curlev.StringUtils.Trim.{trim_exact, trim_self, IsTrimmed}
use curlev.SmtpAddress.{Address, Mode, is_space_or_quote, parse, get_addr_spec, get_name_addr}

-- A text with no angle bracket.
abbrev pub IsPlain : Bytes → Type 0
IsPlain s = all (λ c. not (c == b'<') && not (c == b'>')) s ≡ true

-- The addresses that can be written and read back.
pub record IsAddress (a : Address) : Type 0 where
  pub plain_name : IsPlain a.display_name
  pub plain_spec : IsPlain a.address_spec
  pub trimmed_name : IsTrimmed is_space_or_quote a.display_name
  pub trimmed_spec : IsTrimmed is_space_or_quote a.address_spec

find_opening : (s t : Bytes) → IsPlain s → find b'<' (s ++ (b'<' ∷ t)) ≡ some (length s)
find_opening [] t h = refl
find_opening (c ∷ s) t h = ground (arith, find_opening s t)

find_closing :
    (s t : Bytes)
    → IsPlain t
    → IsPlain s
    → find b'>' (s ++ (b'<' ∷ (t ++ (b'>' ∷ [])))) ≡ some (suc (length s + length t))
find_closing [] [] h g = ground arith
find_closing [] (c ∷ t) h g = ground (arith, find_closing [] t)
find_closing (c ∷ s) t h g = ground (arith, find_closing s t)

-- What stands before the brackets is the name, what stands in them the address.
parse_brackets :
    (l t : Bytes) (m : Mode)
    → IsPlain l
    → IsPlain t
    → parse (l ++ (b'<' ∷ (t ++ (b'>' ∷ [])))) m ≡ record {
      display_name = trim is_space_or_quote l;
      address_spec = trim is_space_or_quote t;
      mode = m;
    }
unfolding parse
parse_brackets l t m h g =
    rw
      (
        find_opening l (t ++ (b'>' ∷ [])) h,
        parse,
        find_closing l t g h,
        take-append l (b'<' ∷ (t ++ (b'>' ∷ []))),
        drop-append l b'<' (t ++ (b'>' ∷ [])),
        span,
        take-append t (b'>' ∷ []),
      )
      (ground arith)
  where
    span : suc (length l + length t) - length l - 1 ≡ length t
    span = omega arith

IsPlain-quoted : (s : Bytes) → IsPlain s → IsPlain (b'"' ∷ (s ++ codes "\" "))
IsPlain-quoted s h =
    rw (all-append (λ c. not (c == b'<') && not (c == b'>')) s (codes "\" "), h) refl

regroup :
    (n t : Bytes) → b'"' ∷ (n ++ (codes "\" <" ++ t)) ≡ (b'"' ∷ (n ++ codes "\" ")) ++ (b'<' ∷ t)
regroup n t = ap (λ s. b'"' ∷ s) (sym (append_assoc n (codes "\" ") (b'<' ∷ t)))

address_eq :
    (a b : Address)
    → a.address_spec ≡ b.address_spec
    → a.display_name ≡ b.display_name
    → a.mode ≡ b.mode
    → a ≡ b
address_eq a b p q r = λ i. record { address_spec = p i; display_name = q i; mode = r i }

-- An address whose two parts hold no angle bracket, and have neither white space nor quotes at
-- their ends, is read back from what is written of it, with a display name or without.
pub parse-get_name_addr : (a : Address) → IsAddress a → parse (get_name_addr a) a.mode ≡ a
unfolding get_name_addr get_addr_spec
parse-get_name_addr a v = go a.display_name refl
  where
    spec : trim is_space_or_quote a.address_spec ≡ a.address_spec
    spec = trim_self is_space_or_quote a.address_spec v.trimmed_spec

    go :
        (n : Bytes)
        → a.display_name ≡ n
        → parse
            (if is_empty n
              then b'<' ∷ (a.address_spec ++ (b'>' ∷ []))
              else b'"' ∷ (n ++ (codes "\" <" ++ (a.address_spec ++ (b'>' ∷ [])))))
            a.mode
          ≡ a
    go [] e =
        parse_brackets [] a.address_spec a.mode refl v.plain_spec
        ∙ address_eq _ a spec (trim_self is_space_or_quote [] (refl, refl) ∙ sym e) refl
    go (c ∷ n) e =
        ap (λ s. parse s a.mode) (regroup (c ∷ n) (a.address_spec ++ (b'>' ∷ [])))
        ∙ parse_brackets (b'"' ∷ (c ∷ n ++ codes "\" ")) a.address_spec a.mode
            (IsPlain-quoted (c ∷ n) (subst IsPlain e v.plain_name)) v.plain_spec
        ∙ address_eq _ a spec
            (trim_exact is_space_or_quote (b'"' ∷ []) (c ∷ n) (codes "\" ") refl refl
                (subst (IsTrimmed is_space_or_quote) e v.trimmed_name)
              ∙ sym e)
            refl
