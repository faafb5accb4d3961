-- ===== src/Transfer.antt =====
-- WrapperBase of include/wrapper.hpp, and the callbacks of src/async.cpp by which libcurl reads the
-- request and stores the response. `size_t` has 64 bits. The pointers that libcurl hands over are
-- never null, so the tests for that are left out.
pub mod Reading
pub mod Writing
pub mod Invariant
pub mod Declared
use curlev.Prelude.{
  ℕ, suc, ◌+◌, ◌-◌, ◌*◌, ◌%◌, min, Bool, true, false, ◌||◌, not, Option, none, some, List, [], ◌∷◌,
  ◌++◌, ltb, leb, ◌==◌, if◌then◌else◌, is_empty, length, take, drop, Bytes, codes,
}
use curlev.Prelude.Int.{ℤ, pos, negsuc}
use curlev.StringUtils.{find, trim, is_space, equal_ascii_ci, svtoul, ulong_mod, ulong_max}
use curlev.MapUtils.{KeyValues, insert_or_assign}

-- The data members of WrapperBase, but for the timer.
pub record Base : Type 0 where
  pub request_body : Bytes
  pub request_body_sent : ℕ
  pub response_headers : KeyValues
  pub response_body : Bytes
  pub header_content_length : ℕ

-- The members' initializers.
abbrev pub initial : Base
initial = record {
  request_body = [];
  request_body_sent = 0;
  response_headers = [];
  response_body = [];
  header_content_length = 0;
}

unfoldable pub set_request_body : Bytes → Base → Base
set_request_body body b = record b { request_body = body; request_body_sent = 0 }

-- The map and the body that were moved from are left empty.
unfoldable pub take_response_headers : Base → KeyValues × Base
take_response_headers b = (b.response_headers, record b { response_headers = [] })

unfoldable pub take_response_body : Base → Bytes × Base
take_response_body b = (b.response_body, record b { response_body = [] })

unfoldable pub clear_base : Base → Base
clear_base b = record b {
  request_body = [];
  response_headers = [];
  response_body = [];
  request_body_sent = 0;
  header_content_length = 0;
}

-- CURL_READFUNC_ABORT, or the bytes that were copied.
pub data ReadResult : Type 0 where
  abort : ReadResult
  sent : Bytes → ReadResult

unfoldable pub curl_cb_read : ℕ → ℕ → Base → Base × ReadResult
curl_cb_read size nmemb b =
    let to_read = min (size * nmemb) (length b.request_body - b.request_body_sent) in
    if ltb ulong_max (size * nmemb)
    then (b, abort)
    else if ltb b.request_body_sent (length b.request_body)
    then (
      record b { request_body_sent = b.request_body_sent + to_read },
      sent (take to_read (drop b.request_body_sent b.request_body)),
    )
    else (b, abort)

pub data SeekResult : Type 0 where
  seek_ok cantseek : SeekResult

-- `from_start` says whether the origin is SEEK_SET.
unfoldable pub curl_cb_seek : ℤ → Bool → Base → Base × SeekResult
curl_cb_seek (pos offset) from_start b =
    if not from_start || leb (length b.request_body) offset
    then (b, cantseek)
    else (record b { request_body_sent = offset }, seek_ok)
curl_cb_seek (negsuc n) from_start b = (b, cantseek)

-- CURL_WRITEFUNC_ERROR, the number of bytes that were taken, or an exception of the standard
-- library that leaves the callback.
pub data WriteResult : Type 0 where
  write_error : WriteResult
  threw : WriteResult
  taken : ℕ → WriteResult

-- The end of `curl_cb_write`: the test of the size, and `append` in its `try`. `can_hold` says for
-- which lengths a string can be allocated.
store : (ℕ → Bool) → ℕ → ℕ → Bytes → Base → Base × WriteResult
store can_hold max size chunk b =
    if ltb max ((length b.response_body + size) % ulong_mod)
    then (b, write_error)
    else if can_hold (length b.response_body + size)
    then (record b { response_body = b.response_body ++ take size chunk }, taken size)
    else (b, write_error)

-- `max` is get_max_response_size(). `reserve` stands outside the `try`.
unfoldable pub curl_cb_write : (ℕ → Bool) → ℕ → ℕ → ℕ → Bytes → Base → Base × WriteResult
unfolding store
curl_cb_write can_hold max size nmemb chunk b =
    if ltb ulong_max (size * nmemb)
    then (b, write_error)
    else if ltb 0 b.header_content_length
    then (if ltb max b.header_content_length
        then (b, write_error)
        else if can_hold b.header_content_length
        then store can_hold max (size * nmemb) chunk (record b { header_content_length = 0 })
        else (b, threw))
    else store can_hold max (size * nmemb) chunk b

abbrev pub content_length : Bytes
content_length = codes "content-length"

-- A header with its two parts trimmed.
store_header : Bytes → Bytes → ℕ → Base → Base × WriteResult
store_header key value size b =
    if is_empty key
    then (b, taken size)
    else if equal_ascii_ci key content_length
    then elim (svtoul value) [
      | none ↦ (b, write_error)
      | some n ↦ (
        record b {
          header_content_length = n;
          response_headers = insert_or_assign key value b.response_headers;
        },
        taken size,
      )
    ]
    else (record b { response_headers = insert_or_assign key value b.response_headers }, taken size)

-- `line` has `size` times `nitems` bytes.
unfoldable pub curl_cb_header : Bytes → Base → Base × WriteResult
unfolding store_header
curl_cb_header line b = elim (find b':' line) [
  | none ↦ (b, taken (length line))
  | some colon ↦
      store_header (trim is_space (take colon line)) (trim is_space (drop (suc colon) line))
        (length line) b
]
