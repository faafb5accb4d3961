-- ===== src/Wrapper/Wired.antt =====
-- Which callbacks a handle calls depends on a few of its options, which nothing but `create` of
-- include/wrapper.hpp sets.
use curlev.Prelude.{◌≡◌, refl, true, ap, ◌∙◌, sym}
use curlev.Libcurl.{Easy, CurlOption, setting_of}
use curlev.Building.Wires.{is_wire, wires, setting_of-wires}
use curlev.Wrapper.{Wrapper}
use curlev.Wrapper.Create.{IsWired}
use curlev.Wrapper.Preserved.{Holds}

-- The callbacks on the handle are those of `x`.
abbrev pub Wires : {P : Type 0} → Easy → Easy → P → Type 0
Wires x h protocol = wires h ≡ x

abbrev pub Keeps : {P : Type 0} → Easy → Wrapper P → Type 0
Keeps x w = Holds (Wires x) w

-- Two handles with the same wires call the same functions.
same_setting :
    (h k : Easy) (o : CurlOption)
    → is_wire o ≡ true
    → wires h ≡ wires k
    → setting_of h o ≡ setting_of k o
same_setting h k o e q =
    sym (setting_of-wires h o e) ∙ (ap (λ l. setting_of l o) q ∙ setting_of-wires k o e)

pub wires-IsWired : (h k : Easy) → wires h ≡ wires k → IsWired k → IsWired h
wires-IsWired h k q a = record {
  reads = (same_setting h k _ refl q ∙ a.reads.0, same_setting h k _ refl q ∙ a.reads.1);
  seeks = (same_setting h k _ refl q ∙ a.seeks.0, same_setting h k _ refl q ∙ a.seeks.1);
  writes = (same_setting h k _ refl q ∙ a.writes.0, same_setting h k _ refl q ∙ a.writes.1);
  headers = (same_setting h k _ refl q ∙ a.headers.0, same_setting h k _ refl q ∙ a.headers.1);
  shared = same_setting h k _ refl q ∙ a.shared;
  silent = same_setting h k _ refl q ∙ a.silent;
}
