-- ===== src/Mime.antt =====
-- include/mime.hpp and src/mime.cpp: the parts of a MIME document.
pub mod Document
pub mod Ownership
use curlev.Prelude.{
  Bool, true, false, ◌&&◌, List, [], ◌∷◌, if◌then◌else◌, and_then, is_empty, Bytes, codes,
}
use curlev.Libcurl.{
  Libcurl, MimeCall, Target, part, sub_part, addpart, sub_init, sub_addpart, sub_free, subparts,
  name, body, kind, filename, filedata,
}
use curlev.CurlUtils.{c_str}

-- mime::parameter, mime::data and mime::file
pub data Alternative : Type 0 where
  parameter : (name value : Bytes) → Alternative
  inline : (name content content_type filename : Bytes) → Alternative
  file : (name filedata content_type filename : Bytes) → Alternative

-- mime::part
pub data Part : Type 0 where
  single : Alternative → Part
  alternatives : List Alternative → Part

abbrev pub Calls : Type 0
Calls = List MimeCall

module _ (lib : Libcurl) where
  -- A call and whether it succeeds.
  abbrev pub call : MimeCall → Calls → Calls × Bool
  call c t = (c ∷ t, lib.mime_ok t c)

  -- An empty text makes no call.
  abbrev pub call_unless_empty : Bytes → MimeCall → Calls → Calls × Bool
  call_unless_empty s c t = if is_empty s then (t, true) else call c t

  abbrev pub mime_name : Target → Bytes → Calls → Calls × Bool
  mime_name p s = call_unless_empty s (name p (c_str s))

  abbrev pub mime_type : Target → Bytes → Calls → Calls × Bool
  mime_type p s = call_unless_empty s (kind p (c_str s))

  abbrev pub mime_filename : Target → Bytes → Calls → Calls × Bool
  mime_filename p s = call_unless_empty s (filename p (c_str s))

  abbrev pub mime_filedata : Target → Bytes → Calls → Calls × Bool
  mime_filedata p s = call_unless_empty s (filedata p (c_str s))

  -- The length is passed on, so a NUL does not end the data.
  abbrev pub mime_data : Target → Bytes → Calls → Calls × Bool
  mime_data p s = call_unless_empty s (body p s)

  -- `read_part` of a parameter, a data and a file.
  pub read_part : Target → Alternative → Calls → Calls × Bool
  read_part p (parameter n v) t = and_then (mime_name p n t) (mime_data p v)
  read_part p (inline n d c f) t =
      and_then (mime_name p n t)
        λ t. and_then (mime_data p d t) λ t. and_then (mime_type p c t) (mime_filename p f)
  read_part p (file n d c f) t =
      and_then (mime_name p n t)
        λ t. and_then (mime_filedata p d t) λ t. and_then (mime_type p c t) (mime_filename p f)

  -- `ok = ok && step`, where `ok` may be false already.
  abbrev pub if_ok : Bool → (Calls → Calls × Bool) → Calls → Calls × Bool
  if_ok ok step t = and_then (t, ok) step

  -- The loop over the alternatives: a part is added also after a failure.
  pub read_alternatives_loop : List Alternative → Bool → Calls → Calls × Bool
  read_alternatives_loop [] ok t = (t, ok)
  read_alternatives_loop (a ∷ as') ok t =
      let (t1, added) = call sub_addpart t in
      let (t2, ok2) = if_ok (ok && added) (read_part sub_part a) t1 in
      read_alternatives_loop as' ok2 t2

  -- The document of alternatives is freed, unless it was given to the part.
  abbrev pub close_alternatives : Calls × Bool → Calls × Bool
  close_alternatives (t, true) = (t, true)
  close_alternatives (t, false) = (sub_free ∷ t, false)

  pub read_alternatives : List Alternative → Calls → Calls × Bool
  unfolding read_alternatives_loop
  read_alternatives parts t =
      let (t1, created) = call sub_init t in
      let r = read_alternatives_loop parts created t1 in
      close_alternatives (
        and_then r
          λ t. and_then (call (kind part (codes "multipart/alternative")) t) (call subparts))

  pub visit : Part → Calls → Calls × Bool
  unfolding read_part read_alternatives
  visit (single a) t = read_part part a t
  visit (alternatives parts) t = read_alternatives parts t

  apply_loop : List Part → Bool → Calls → Calls × Bool
  unfolding visit
  apply_loop [] ok t = (t, ok)
  apply_loop (p ∷ ps) ok t =
      let (t1, added) = call addpart t in
      let (t2, ok2) = if_ok (ok && added) (visit p) t1 in apply_loop ps ok2 t2

  unfoldable pub apply : List Part → Calls → Calls × Bool
  unfolding apply_loop
  apply parts t = apply_loop parts true t
