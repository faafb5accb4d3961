-- ===== src/Smtp/Message.antt =====
-- The headers and the recipients of an email: `fill_headers` and `fill_recipients` of src/smtp.cpp.
use curlev.Prelude.{
  Bool, true, List, [], ◌∷◌, ◌++◌, map, ◌≡◌, arith, inl, inr, Bytes, codes, and_then, ap, ◌∙◌, sym,
  append_assoc, append-nil,
}
use curlev.Libcurl.{Libcurl, SlistAppends}
use curlev.CurlUtils.{c_str, curl_slist_checked_append, curl_header_checked_append}
use curlev.CurlUtils.Headers.{line, header_append_cases, checked_append_cases}
use curlev.SmtpAddress.{Address, get_name_addr, get_addr_spec}
use curlev.Defaults.{Defaults}
use curlev.Smtp.{prefix, append_names, append_recipients, message_headers}

-- The line that names a recipient.
abbrev pub name_line : Address → Bytes
name_line a = line (prefix a.mode) (get_name_addr a)

-- The header lines of a message, as they are meant.
abbrev pub written : Bytes → Bytes → Address → List Address → List Bytes
written date subject from to =
    line (codes "Date") date
    ∷ line (codes "Subject") subject
    ∷ line (codes "From") (get_name_addr from)
    ∷ map name_line to

still : {r q : List Bytes × Bool} → r ≡ q → r.1 ≡ true → q.1 ≡ true
still f e = sym (ap (λ (x : List Bytes × Bool). x.1) f) ∙ e

module _ (lib : Libcurl) (appends : SlistAppends lib) where
  header_then :
      (headers : List Bytes) (key value : Bytes) (next : List Bytes → List Bytes × Bool)
      → (and_then (curl_header_checked_append lib headers key value) next).1 ≡ true
      → and_then (curl_header_checked_append lib headers key value) next
        ≡ next (headers ++ (line key value ∷ []))
  header_then headers key value next e = elim (header_append_cases lib appends headers key value) [
    | inl f ↦ ground (arith, ap (λ r. (and_then r next).1) f)
    | inr (f, _, _) ↦ ap (λ r. and_then r next) f
  ]

  recipient_then :
      (list : List Bytes) (s : Bytes) (next : List Bytes → List Bytes × Bool)
      → (and_then (curl_slist_checked_append lib list s) next).1 ≡ true
      → and_then (curl_slist_checked_append lib list s) next ≡ next (list ++ (c_str s ∷ []))
  recipient_then list s next e = elim (checked_append_cases lib appends list s) [
    | inl f ↦ ground (arith, ap (λ r. (and_then r next).1) f)
    | inr (f, _) ↦ ap (λ r. and_then r next) f
  ]

module _ (lib : Libcurl) (appends : SlistAppends lib) (date : Bytes) (d : Defaults) where
  append_names-written :
      (headers : List Bytes) (to : List Address)
      → (append_names lib date d headers to).1 ≡ true
      → (append_names lib date d headers to).0 ≡ headers ++ map name_line to
  unfolding append_names
  append_names-written headers [] e = sym (append-nil headers)
  append_names-written headers (a ∷ to) e =
      let next = λ (hs : List Bytes). append_names lib date d hs to in
      let q = header_then lib appends headers (prefix a.mode) (get_name_addr a) next e in
      ap (λ (r : List Bytes × Bool). r.0) q
      ∙ (append_names-written (headers ++ (name_line a ∷ [])) to (still q e)
          ∙ append_assoc headers (name_line a ∷ []) (map name_line to))

  -- When the headers of a message are all taken, what is added to the list is one line each for the
  -- date, the subject and the sender, and then one for each recipient, in order: To, Cc, and, for
  -- the recipients that no other is to see, Bcc.
  pub message_headers-written :
      (subject : Bytes) (from : Address) (to : List Address) (headers : List Bytes)
      → (message_headers lib date d subject from to headers).1 ≡ true
      → (message_headers lib date d subject from to headers).0
        ≡ headers ++ written date subject from to
  unfolding message_headers
  message_headers-written subject from to headers e =
      let from_next = λ (hs : List Bytes). append_names lib date d hs to in
      let subject_next = λ (hs : List Bytes).
        and_then (curl_header_checked_append lib hs (codes "From") (get_name_addr from))
          from_next in
      let date_next = λ (hs : List Bytes).
        and_then (curl_header_checked_append lib hs (codes "Subject") subject) subject_next in
      let h1 = headers ++ (line (codes "Date") date ∷ []) in
      let h2 = h1 ++ (line (codes "Subject") subject ∷ []) in
      let h3 = h2 ++ (line (codes "From") (get_name_addr from) ∷ []) in
      let q1 = header_then lib appends headers (codes "Date") date date_next e in
      let e1 = still q1 e in
      let q2 = header_then lib appends h1 (codes "Subject") subject subject_next e1 in
      let e2 = still q2 e1 in
      let q3 = header_then lib appends h2 (codes "From") (get_name_addr from) from_next e2 in
      let e3 = still q3 e2 in
      ap (λ (r : List Bytes × Bool). r.0) (q1 ∙ (q2 ∙ q3))
      ∙ (append_names-written h3 to e3 ∙ simp append_assoc)

  -- When the recipients are all taken, what is added to the envelope is the bracketed address of
  -- each recipient, in order, up to a NUL, whether its mode is To, Cc or Bcc.
  append_recipients-written :
      (list : List Bytes) (to : List Address)
      → (append_recipients lib date d list to).1 ≡ true
      → (append_recipients lib date d list to).0 ≡ list ++ map (λ a. c_str (get_addr_spec a)) to
  unfolding append_recipients
  append_recipients-written list [] e = sym (append-nil list)
  append_recipients-written list (a ∷ to) e =
      let next = λ (l : List Bytes). append_recipients lib date d l to in
      let q = recipient_then lib appends list (get_addr_spec a) next e in
      ap (λ (r : List Bytes × Bool). r.0) q
      ∙ (append_recipients-written (list ++ (c_str (get_addr_spec a) ∷ [])) to (still q e)
          ∙ append_assoc list (c_str (get_addr_spec a) ∷ [])
              (map (λ a. c_str (get_addr_spec a)) to))
