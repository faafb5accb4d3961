-- ===== src/SmtpAddress.antt =====
-- smtp::address of include/smtp.hpp and src/smtp.cpp.
pub mod RoundTrip
use curlev.Prelude.{
  ℕ, suc, ◌-◌, Bool, ◌||◌, Option, none, some, List, [], ◌∷◌, ◌++◌, ◌==◌, ltb, if◌then◌else◌,
  is_empty, take, drop, Bytes, codes,
}
use curlev.StringUtils.{find, trim, is_space}

pub data Mode : Type 0 where
  to cc bcc : Mode

pub record Address : Type 0 where
  pub address_spec : Bytes
  pub display_name : Bytes
  pub mode : Mode

-- The lambda `isspace` of the constructor.
abbrev pub is_space_or_quote : ℕ → Bool
is_space_or_quote c = is_space c || c == b'"'

abbrev bare : Bytes → Mode → Address
bare s m = record { address_spec = trim is_space s; display_name = []; mode = m }

-- The constructor. `find` gives the first bracket of each kind.
unfoldable pub parse : Bytes → Mode → Address
parse s m = elim (find b'<' s) [
  | none ↦ bare s m
  | some start ↦ elim (find b'>' s) [
    | none ↦ bare s m
    | some end ↦
        if ltb start end
        then record {
          display_name = trim is_space_or_quote (take start s);
          address_spec = trim is_space_or_quote (take (end - start - 1) (drop (suc start) s));
          mode = m;
        }
        else bare s m
  ]
]

unfoldable pub get_addr_spec : Address → Bytes
get_addr_spec a = b'<' ∷ (a.address_spec ++ (b'>' ∷ []))

unfoldable pub get_name_addr : Address → Bytes
get_name_addr a =
    if is_empty a.display_name
    then get_addr_spec a
    else b'"' ∷ (a.display_name ++ (codes "\" <" ++ (a.address_spec ++ (b'>' ∷ []))))
