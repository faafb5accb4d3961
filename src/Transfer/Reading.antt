-- ===== src/Transfer/Reading.antt =====
-- `curl_cb_read` and `curl_cb_seek` of src/async.cpp: the request body as libcurl sees it.
use curlev.Prelude.{
  ℕ, zero, suc, ◌+◌, ◌-◌, ◌*◌, ◌≤◌, ◌<◌, min, ◌≡◌, refl, ap, sym, ◌∙◌, List, [], ◌∷◌, ◌++◌,
  append_assoc, arith, length, drop, take-append-drop, Bytes,
}
use curlev.StringUtils.{ulong_max}
use curlev.Transfer.{Base, ReadResult, abort, sent, curl_cb_read}

-- The bytes that one call hands over.
abbrev pub bytes_of : ReadResult → Bytes
bytes_of abort = []
bytes_of (sent s) = s

-- The body that has not been handed over.
abbrev pub unread : Base → Bytes
unread b = drop b.request_body_sent b.request_body

drop-nil : (n : ℕ) → drop {A = ℕ} n [] ≡ []
drop-nil zero = refl
drop-nil (suc n) = refl

drop-add : (m n : ℕ) (s : Bytes) → drop (m + n) s ≡ drop n (drop m s)
drop-add zero n s = let e : 0 + n ≡ n = omega arith in rw e
drop-add (suc m) n [] = rw (drop-nil (suc m + n), drop-nil n)
drop-add (suc m) n (c ∷ s) = let e : suc m + n ≡ suc (m + n) = omega arith in rw e (drop-add m n s)

-- A call hands over the next bytes of the body, and leaves the body.
curl_cb_read-unread :
    (size nmemb : ℕ) (b : Base)
    → (unread b ≡ bytes_of (curl_cb_read size nmemb b).1 ++ unread (curl_cb_read size nmemb b).0)
      × ((curl_cb_read size nmemb b).0.request_body ≡ b.request_body)
unfolding curl_cb_read
curl_cb_read-unread size nmemb b =
    let n = min (size * nmemb) (length b.request_body - b.request_body_sent) in
    ground (
      arith,
      drop-add b.request_body_sent n b.request_body,
      take-append-drop n (drop b.request_body_sent b.request_body),
    )

-- Calls with buffers of these sizes, one after another; the bytes that they handed over.
pub read_all : List (ℕ × ℕ) → Base → Base × Bytes
read_all [] b = (b, [])
read_all ((size, nmemb) ∷ cs) b =
    let (b1, r) = curl_cb_read size nmemb b in
    let (b2, rest) = read_all cs b1 in (b2, bytes_of r ++ rest)

-- However libcurl cuts the body, what it was handed over and what is left make up the body: no
-- byte is lost, repeated or moved.
pub read_all-unread :
    (cs : List (ℕ × ℕ)) (b : Base)
    → (unread b ≡ (read_all cs b).1 ++ unread (read_all cs b).0)
      × ((read_all cs b).0.request_body ≡ b.request_body)
unfolding read_all
read_all-unread [] b = (refl, refl)
read_all-unread ((size, nmemb) ∷ cs) b =
    let b1 = (curl_cb_read size nmemb b).0 in
    let first = bytes_of (curl_cb_read size nmemb b).1 in
    let (split, same1) = curl_cb_read-unread size nmemb b in
    let (rest, same2) = read_all-unread cs b1 in
    (
      split
          ∙ ap (λ s. first ++ s) rest
          ∙ sym (append_assoc first (read_all cs b1).1 (unread (read_all cs b1).0)),
      same2 ∙ same1,
    )

-- A buffer of one byte or more always takes a byte of a body that is not all sent, and a call on a
-- body that is all sent aborts the transfer.
pub curl_cb_read_progress :
    (size nmemb : ℕ) (b : Base)
    → 0 < size * nmemb
    → size * nmemb ≤ ulong_max
    → ((b.request_body_sent < length b.request_body)
        → (b.request_body_sent < (curl_cb_read size nmemb b).0.request_body_sent)
          × ((curl_cb_read size nmemb b).0.request_body_sent ≤ length b.request_body))
      × (length b.request_body ≤ b.request_body_sent → curl_cb_read size nmemb b ≡ (b, abort))
unfolding curl_cb_read
curl_cb_read_progress size nmemb b h fits = (λ p. ground arith, λ q. ground arith)
