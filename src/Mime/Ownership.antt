-- ===== src/Mime/Ownership.antt =====
-- Who frees the documents of alternatives: src/mime.cpp.
use curlev.Prelude.{
  ℕ, ◌+◌, Bool, true, false, ◌&&◌, List, [], ◌∷◌, ◌≡◌, refl, arith, and_then, codes,
}
use curlev.Libcurl.{
  Libcurl, MimeCall, Target, part, sub_part, sub_init, sub_addpart, sub_free, subparts, kind,
}
use curlev.Mime.{
  Alternative, parameter, inline, file, Calls, call, read_part, read_alternatives_loop,
  read_alternatives, if_ok, close_alternatives,
}

abbrev pub is_init : MimeCall → ℕ
is_init sub_init = 1
is_init _ = 0

-- What ends the ownership of a document of alternatives.
abbrev pub is_free : MimeCall → ℕ
is_free sub_free = 1
is_free _ = 0

pub count : (MimeCall → ℕ) → Calls → ℕ
count w [] = 0
count w (c ∷ t) = w c + count w t

-- A step that neither makes nor frees a document of alternatives.
abbrev Keeps : Calls → Calls → Type 0
Keeps t t' = (count is_init t' ≡ count is_init t) × (count is_free t' ≡ count is_free t)

module _ (lib : Libcurl) where
  read_part-Keeps : (p : Target) (a : Alternative) (t : Calls) → Keeps t (read_part lib p a t).0
  unfolding read_part count
  read_part-Keeps p (parameter n v) t = ground arith
  read_part-Keeps p (inline n d c f) t = ground arith
  read_part-Keeps p (file n d c f) t = ground arith

  if_ok-Keeps :
      (ok : Bool) (p : Target) (a : Alternative) (t : Calls)
      → Keeps t (if_ok lib ok (read_part lib p a) t).0
  if_ok-Keeps true p a t = read_part-Keeps p a t
  if_ok-Keeps false p a t = (refl, refl)

  loop-Keeps :
      (as' : List Alternative) (ok : Bool) (t : Calls)
      → Keeps t (read_alternatives_loop lib as' ok t).0
  unfolding read_alternatives_loop count
  loop-Keeps [] ok t = (refl, refl)
  loop-Keeps (a ∷ as') ok t =
      let added = lib.mime_ok t sub_addpart in
      let r = if_ok lib (ok && added) (read_part lib sub_part a) (sub_addpart ∷ t) in
      omega (arith, loop-Keeps as' r.1 r.0, if_ok-Keeps (ok && added) sub_part a (sub_addpart ∷ t))

  -- The end of `read_part` of the alternatives, after the loop.
  abbrev finish : Calls × Bool → Calls × Bool
  finish r = close_alternatives lib (
      and_then r
        λ t. and_then (call lib (kind part (codes "multipart/alternative")) t) (call lib subparts))

  abbrev pub frees : Bool → ℕ
  frees true = 0
  frees false = 1

  finish-count :
      (r : Calls × Bool)
      → (count is_init (finish r).0 ≡ count is_init r.0)
        × (count is_free (finish r).0 ≡ count is_free r.0 + frees (finish r).1)
  unfolding count
  finish-count (t, true) = ground arith
  finish-count (t, false) = ground arith

  -- One document of alternatives is made, and it is freed once exactly if the part failed: a part
  -- that succeeded has handed it over.
  pub read_alternatives_owned :
      (as' : List Alternative) (t : Calls)
      → (count is_init (read_alternatives lib as' t).0 ≡ count is_init t + 1)
        × (count is_free (read_alternatives lib as' t).0
            ≡ count is_free t + frees (read_alternatives lib as' t).1)
  unfolding read_alternatives count
  read_alternatives_owned as' t =
      let created = lib.mime_ok t sub_init in
      let r = read_alternatives_loop lib as' created (sub_init ∷ t) in
      omega (arith, finish-count r, loop-Keeps as' created (sub_init ∷ t))
