-- ===== src/Mime/Document.antt =====
-- `mime::apply` of src/mime.cpp against the document that its argument describes.
use curlev.Prelude.{
  &&_parts, Bool, true, false, ◌&&◌, List, [], ◌∷◌, ◌++◌, ◌≡◌, refl, arith, if◌then◌else◌, and_then,
  is_empty, Bytes, codes, ◌∙◌, ap, sym,
}
use curlev.Libcurl.{
  Libcurl, MimeCall, Target, part, sub_part, addpart, sub_init, sub_addpart, subparts, name, body,
  kind, filename, filedata,
}
use curlev.CurlUtils.{c_str}
use curlev.Mime.{
  Alternative, parameter, inline, file, Part, single, alternatives, Calls, call, read_part,
  read_alternatives_loop, read_alternatives, visit, apply_loop, apply, if_ok, close_alternatives,
}

-- A log under further calls.
abbrev pub made : List MimeCall → Calls → Calls
made [] t = t
made (c ∷ cs) t = made cs (c ∷ t)

made-append : (cs ds : List MimeCall) (t : Calls) → made (cs ++ ds) t ≡ made ds (made cs t)
made-append [] ds t = refl
made-append (c ∷ cs) ds t = made-append cs ds (c ∷ t)

abbrev unless_empty : Bytes → MimeCall → List MimeCall
unless_empty s c = if is_empty s then [] else c ∷ []

-- The calls that describe one part: its fields that are not empty.
fields_of : Target → Alternative → List MimeCall
fields_of p (parameter n v) = unless_empty n (name p (c_str n)) ++ unless_empty v (body p v)
fields_of p (inline n d c f) =
    unless_empty n (name p (c_str n))
    ++ (unless_empty d (body p d)
        ++ (unless_empty c (kind p (c_str c)) ++ unless_empty f (filename p (c_str f))))
fields_of p (file n d c f) =
    unless_empty n (name p (c_str n))
    ++ (unless_empty d (filedata p (c_str d))
        ++ (unless_empty c (kind p (c_str c)) ++ unless_empty f (filename p (c_str f))))

subs_of : List Alternative → List MimeCall
subs_of [] = []
subs_of (a ∷ as') = sub_addpart ∷ (fields_of sub_part a ++ subs_of as')

part_of : Part → List MimeCall
part_of (single a) = fields_of part a
part_of (alternatives as') =
    sub_init ∷ (subs_of as' ++ (kind part (codes "multipart/alternative") ∷ subparts ∷ []))

-- The calls that describe a whole document.
pub document : List Part → List MimeCall
document [] = []
document (p ∷ ps) = addpart ∷ (part_of p ++ document ps)

module _ (lib : Libcurl) where
  read_part-fields :
      (p : Target) (a : Alternative) (t t' : Calls)
      → read_part lib p a t ≡ (t', true)
      → t' ≡ made (fields_of p a) t
  unfolding read_part fields_of
  read_part-fields p (parameter n v) t t' e = ground arith
  read_part-fields p (inline n d c f) t t' e = ground arith
  read_part-fields p (file n d c f) t t' e = ground arith

  -- A step that is made only if `ok`, and succeeds.
  if_ok-true :
      (ok : Bool) (step : Calls → Calls × Bool) (t : Calls)
      → (if_ok lib ok step t).1 ≡ true
      → (ok ≡ true) × (step t ≡ ((if_ok lib ok step t).0, true))
  if_ok-true true step t e = (refl, λ i. ((step t).0, e i))
  if_ok-true false step t e = cc

  loop-subs :
      (as' : List Alternative) (ok : Bool) (t t' : Calls)
      → read_alternatives_loop lib as' ok t ≡ (t', true)
      → (ok ≡ true) × (t' ≡ made (subs_of as') t)
  unfolding read_alternatives_loop subs_of
  loop-subs [] ok t t' e = ground arith
  loop-subs (a ∷ as') ok t t' e =
      let added = lib.mime_ok t sub_addpart in
      let r = if_ok lib (ok && added) (read_part lib sub_part a) (sub_addpart ∷ t) in
      let (ok2, rest) = loop-subs as' r.1 r.0 t' e in
      let (both, step) =
        if_ok-true (ok && added) (read_part lib sub_part a) (sub_addpart ∷ t) ok2 in
      (
        (&&_parts ok added both).0,
        rest
            ∙ ap (made (subs_of as')) (read_part-fields sub_part a (sub_addpart ∷ t) r.0 step)
            ∙ sym (made-append (fields_of sub_part a) (subs_of as') (sub_addpart ∷ t)),
      )

  close_true :
      (r : Calls × Bool) (t' : Calls) → close_alternatives lib r ≡ (t', true) → r ≡ (t', true)
  close_true (t, true) t' e = e
  close_true (t, false) t' e = ground arith

  -- The two calls that hand the alternatives over.
  hand_over :
      (r : Calls × Bool) (t' : Calls)
      → and_then r (λ t.
        and_then (call lib (kind part (codes "multipart/alternative")) t) (call lib subparts))
        ≡ (t', true)
      → (r.1 ≡ true) × (t' ≡ subparts ∷ kind part (codes "multipart/alternative") ∷ r.0)
  hand_over (t, true) t' e = ground arith
  hand_over (t, false) t' e = ground arith

  alternatives-part_of :
      (as' : List Alternative) (t t' : Calls)
      → read_alternatives lib as' t ≡ (t', true)
      → t' ≡ made (part_of (alternatives as')) t
  unfolding read_alternatives part_of
  alternatives-part_of as' t t' e =
      let created = lib.mime_ok t sub_init in
      let r = read_alternatives_loop lib as' created (sub_init ∷ t) in
      let (ok, log) = hand_over r t' (close_true _ t' e) in
      let (_, subs) = loop-subs as' created (sub_init ∷ t) r.0 (λ i. (r.0, ok i)) in
      log
      ∙ ap (λ u. subparts ∷ kind part (codes "multipart/alternative") ∷ u) subs
      ∙ sym (
          made-append (subs_of as') (kind part (codes "multipart/alternative") ∷ subparts ∷ [])
            (sub_init ∷ t))

  visit-part_of : (p : Part) (t t' : Calls) → visit lib p t ≡ (t', true) → t' ≡ made (part_of p) t
  unfolding visit part_of
  visit-part_of (single a) t t' e = read_part-fields part a t t' e
  visit-part_of (alternatives as') t t' e = alternatives-part_of as' t t' e

  loop-document :
      (ps : List Part) (ok : Bool) (t t' : Calls)
      → apply_loop lib ps ok t ≡ (t', true)
      → (ok ≡ true) × (t' ≡ made (document ps) t)
  unfolding apply_loop document
  loop-document [] ok t t' e = ground arith
  loop-document (p ∷ ps) ok t t' e =
      let added = lib.mime_ok t addpart in
      let r = if_ok lib (ok && added) (visit lib p) (addpart ∷ t) in
      let (ok2, rest) = loop-document ps r.1 r.0 t' e in
      let (both, step) = if_ok-true (ok && added) (visit lib p) (addpart ∷ t) ok2 in
      (
        (&&_parts ok added both).0,
        rest
            ∙ ap (made (document ps)) (visit-part_of p (addpart ∷ t) r.0 step)
            ∙ sym (made-append (part_of p) (document ps) (addpart ∷ t)),
      )

-- A document that is applied with success was built by exactly the calls that its parts describe,
-- in their order: each part with its fields that are not empty, the alternatives in a document of
-- their own that is handed to its part.
pub apply-document :
    (lib : Libcurl) (ps : List Part) (t t' : Calls)
    → apply lib ps t ≡ (t', true)
    → t' ≡ made (document ps) t
unfolding apply
apply-document lib ps t t' e = (loop-document lib ps true t t' e).1
