-- ===== src/Transfer/Invariant.antt =====
-- What holds of the data of a transfer whatever libcurl calls: src/async.cpp.
use curlev.Prelude.{
  ℕ, zero, suc, ◌+◌, ◌*◌, ◌≤◌, ◌<◌, ◌≡◌, Bool, List, [], ◌∷◌, All, arith, length, take,
  length-append, Bytes,
}
use curlev.Prelude.Int.{ℤ, pos, negsuc}
use curlev.StringUtils.{ulong_mod}
use curlev.Transfer.{
  Base, curl_cb_read, curl_cb_seek, curl_cb_write, curl_cb_header, store, store_header,
}

-- A call that libcurl makes during a transfer.
pub data Event : Type 0 where
  reads : (size nmemb : ℕ) → Event
  seeks : (offset : ℤ) (from_start : Bool) → Event
  writes : (size nmemb : ℕ) (chunk : Bytes) → Event
  header : (line : Bytes) → Event

-- The body that is sent is a part of the request, and the response is within its limit.
pub record IsValid (max : ℕ) (b : Base) : Type 0 where
  pub within : b.request_body_sent ≤ length b.request_body
  pub bounded : length b.response_body ≤ max

-- Memory holds the response and the next chunk, so their sizes add up with no wrap.
abbrev pub Fits : ℕ → Event → Type 0
Fits max (writes size nmemb chunk) = max + size * nmemb < ulong_mod
Fits max _ = Unit

length-take-le : (n : ℕ) (s : Bytes) → length (take n s) ≤ n
length-take-le zero s = omega arith
length-take-le (suc n) [] = omega arith
length-take-le (suc n) (c ∷ s) = omega (arith, length-take-le n s)

module _ (can_hold : ℕ → Bool) (max : ℕ) where
  pub handle : Event → Base → Base
  handle (reads size nmemb) b = (curl_cb_read size nmemb b).0
  handle (seeks offset from_start) b = (curl_cb_seek offset from_start b).0
  handle (writes size nmemb chunk) b = (curl_cb_write can_hold max size nmemb chunk b).0
  handle (header line) b = (curl_cb_header line b).0

  pub run : List Event → Base → Base
  run [] b = b
  run (e ∷ es) b = run es (handle e b)

  store-bounded :
      (size : ℕ) (chunk : Bytes) (b : Base)
      → max + size < ulong_mod
      → length b.response_body ≤ max
      → length (store can_hold max size chunk b).0.response_body ≤ max
  unfolding store
  store-bounded size chunk b fits h =
      ground (arith, length-append b.response_body (take size chunk), length-take-le size chunk)

  store-request :
      (size : ℕ) (chunk : Bytes) (b : Base)
      → ((store can_hold max size chunk b).0.request_body ≡ b.request_body)
        × ((store can_hold max size chunk b).0.request_body_sent ≡ b.request_body_sent)
  unfolding store
  store-request size chunk b = ground arith

  header_keeps :
      (line : Bytes) (b : Base)
      → ((curl_cb_header line b).0.request_body ≡ b.request_body)
        × ((curl_cb_header line b).0.request_body_sent ≡ b.request_body_sent)
        × ((curl_cb_header line b).0.response_body ≡ b.response_body)
  unfolding curl_cb_header store_header
  header_keeps line b = ground arith

  handle-IsValid : (e : Event) (b : Base) → Fits max e → IsValid max b → IsValid max (handle e b)
  unfolding handle
  handle-IsValid (reads size nmemb) b f v = unfold curl_cb_read in ground arith
  handle-IsValid (seeks (pos offset) from_start) b f v = unfold curl_cb_seek in ground arith
  handle-IsValid (seeks (negsuc n) from_start) b f v = unfold curl_cb_seek in v
  handle-IsValid (writes size nmemb chunk) b f v =
      let b0 : Base = record b { header_content_length = 0 } in
      unfold curl_cb_write in
      ground (
        arith,
        store-bounded (size * nmemb) chunk b,
        store-bounded (size * nmemb) chunk b0,
        store-request (size * nmemb) chunk b,
        store-request (size * nmemb) chunk b0,
      )
  handle-IsValid (header line) b f v = ground (arith, header_keeps line b)

  -- Whatever libcurl calls, in any order, from a state in which it holds: the response is never
  -- larger than its limit, and what was sent is never more than the request's body. The limit and
  -- the size of each chunk are assumed to add up to less than 2^64.
  pub run-IsValid :
      (es : List Event) (b : Base) → All (Fits max) es → IsValid max b → IsValid max (run es b)
  unfolding run
  run-IsValid [] b f v = v
  run-IsValid (e ∷ es) b (f, fs) v = run-IsValid es (handle e b) fs (handle-IsValid e b f v)
