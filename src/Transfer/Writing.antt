-- ===== src/Transfer/Writing.antt =====
-- `curl_cb_write` of src/async.cpp: what is stored of a response, and how much.
use curlev.Prelude.{
  ℕ, ◌+◌, ◌*◌, ◌≤◌, ◌<◌, ◌≡◌, refl, ap, ◌∙◌, Bool, true, false, List, [], ◌∷◌, ◌++◌, append_assoc,
  append-nil, arith, length, take-length, length-append, Bytes, and_then,
}
use curlev.StringUtils.{ulong_mod}
use curlev.Transfer.{Base, WriteResult, write_error, threw, taken, store, curl_cb_write}

module _ (can_hold : ℕ → Bool) (max : ℕ) where
  abbrev all_taken : Base × WriteResult → Base × Bool
  all_taken (b, taken n) = (b, true)
  all_taken (b, write_error) = (b, false)
  all_taken (b, threw) = (b, false)

  -- A chunk that was taken is at the end of the body, which then has the allowed size at most; and
  -- a declared length was within it too.
  abbrev pub Stored : Bytes → Base → Base × WriteResult → Type 0
  Stored chunk b r =
      (r.0.response_body ≡ b.response_body ++ chunk)
      × (length (b.response_body ++ chunk) ≤ max)
      × (b.header_content_length ≤ max)
      × (r.0.header_content_length ≡ 0)

  store-Stored :
      (chunk : Bytes) (b : Base) (n : ℕ)
      → length b.response_body + length chunk < ulong_mod
      → (store can_hold max (length chunk) chunk b).1 ≡ taken n
      → ((store can_hold max (length chunk) chunk b).0.response_body ≡ b.response_body ++ chunk)
        × (length (b.response_body ++ chunk) ≤ max)
        × ((store can_hold max (length chunk) chunk b).0.header_content_length
            ≡ b.header_content_length)
  unfolding store
  store-Stored chunk b n small e =
      ground (arith, take-length chunk, length-append b.response_body chunk)

  -- libcurl is told that a chunk was taken only if all of it was stored, where the sizes of the
  -- response and of the chunk add up to less than 2^64.
  pub curl_cb_write-Stored :
      (size nmemb n : ℕ) (chunk : Bytes) (b : Base)
      → length chunk ≡ size * nmemb
      → length b.response_body + length chunk < ulong_mod
      → (curl_cb_write can_hold max size nmemb chunk b).1 ≡ taken n
      → Stored chunk b (curl_cb_write can_hold max size nmemb chunk b)
  unfolding curl_cb_write
  curl_cb_write-Stored size nmemb n chunk b whole small e = ground (
    arith,
    whole,
    store-Stored chunk b n,
    store-Stored chunk (record b { header_content_length = 0 }) n,
  )

  -- Calls with these chunks, up to the first that is not taken.
  unfoldable pub write_all : List Bytes → Base → Base × Bool
  write_all [] b = (b, true)
  write_all (chunk ∷ cs) b =
      and_then (all_taken (curl_cb_write can_hold max 1 (length chunk) chunk b)) (write_all cs)

  abbrev pub joined : List Bytes → Bytes
  joined [] = []
  joined (chunk ∷ cs) = chunk ++ joined cs

  length-joined : (chunk : Bytes) (cs : List Bytes) → length chunk ≤ length (joined (chunk ∷ cs))
  length-joined chunk cs = omega (arith, length-append chunk (joined cs))

  all_taken-true : (r : Base × WriteResult) → (all_taken r).1 ≡ true → (n : ℕ) × (r.1 ≡ taken n)
  all_taken-true (b, taken n) e = (n, refl)
  all_taken-true (b, write_error) e = cc
  all_taken-true (b, threw) e = cc

  all_taken_state : (r : Base × WriteResult) → (all_taken r).0 ≡ r.0
  all_taken_state (b, taken n) = refl
  all_taken_state (b, write_error) = refl
  all_taken_state (b, threw) = refl

  -- One chunk that was taken, seen from `write_all`.
  one_stored :
      (chunk : Bytes) (b : Base)
      → length b.response_body + length chunk < ulong_mod
      → (all_taken (curl_cb_write can_hold max 1 (length chunk) chunk b)).1 ≡ true
      → ((all_taken (curl_cb_write can_hold max 1 (length chunk) chunk b)).0.response_body
          ≡ b.response_body ++ chunk)
        × (length (b.response_body ++ chunk) ≤ max)
  one_stored chunk b small e =
      let r = curl_cb_write can_hold max 1 (length chunk) chunk b in
      let (n, took) = all_taken-true r e in
      let (body, bound, _, _) =
        curl_cb_write-Stored 1 (length chunk) n chunk b (omega arith) small took in
      (rw (all_taken_state r) body, bound)

  -- Where every chunk was taken, the response is what was there before and the chunks in order,
  -- and it has the allowed size at most, if it had before. All sizes together are assumed to be
  -- less than 2^64.
  pub write_all-joined :
      (cs : List Bytes) (b b' : Base)
      → length b.response_body + length (joined cs) < ulong_mod
      → length b.response_body ≤ max
      → write_all cs b ≡ (b', true)
      → (b'.response_body ≡ b.response_body ++ joined cs) × (length b'.response_body ≤ max)
  unfolding write_all
  write_all-joined [] b b' small h e = ground (arith, append-nil b.response_body)
  write_all-joined (chunk ∷ cs) b b' small h e =
      go (all_taken (curl_cb_write can_hold max 1 (length chunk) chunk b))
        (one_stored chunk b (omega (arith, size))) (λ c. write_all-joined cs c b') e
    where
      size : length (chunk ++ joined cs) ≡ length chunk + length (joined cs)
      size = length-append chunk (joined cs)

      go :
          (r : Base × Bool)
          → (r.1 ≡ true
              → (r.0.response_body ≡ b.response_body ++ chunk)
                × (length (b.response_body ++ chunk) ≤ max))
          → ((c : Base)
              → length c.response_body + length (joined cs) < ulong_mod
              → length c.response_body ≤ max
              → write_all cs c ≡ (b', true)
              → (b'.response_body ≡ c.response_body ++ joined cs) × (length b'.response_body ≤ max))
          → and_then r (write_all cs) ≡ (b', true)
          → (b'.response_body ≡ b.response_body ++ (chunk ++ joined cs))
            × (length b'.response_body ≤ max)
      go (c, true) one ih p =
          let (same, bound) = one refl in
          let fits : length c.response_body + length (joined cs) < ulong_mod =
            omega (arith, size, ap length same, length-append b.response_body chunk) in
          let (q, lim) = ih c fits (rw same bound) p in
          (q ∙ ap (λ s. s ++ joined cs) same ∙ append_assoc b.response_body chunk (joined cs), lim)
      go (c, false) one ih p = ground arith
