-- ===== src/Tests/Transfers.antt =====
-- The data of a transfer: the callbacks of src/async.cpp.
use curlev.Prelude.{ℕ, ◌≤◌, Bool, true, List, [], ◌∷◌, ◌++◌, ◌≡◌, refl, arith, codes, length}
use curlev.Prelude.Int.{pos}
use curlev.Transfer.{Base, initial, set_request_body, curl_cb_write}
use curlev.Transfer.Writing.{write_all-joined, write_all, joined}
use curlev.Transfer.Reading.{read_all, read_all-unread, unread}
use curlev.Transfer.Invariant.{run, run-IsValid, IsValid, Event, reads, seeks, writes, header}

abbrev holds : ℕ → Bool
holds n = true

abbrev with_body : Base
with_body = set_request_body (codes "hello") initial

read_all-unread_example :
    (unread with_body
      ≡ (read_all ((1, 2) ∷ (2, 2) ∷ []) with_body).1
        ++ unread (read_all ((1, 2) ∷ (2, 2) ∷ []) with_body).0)
    × ((read_all ((1, 2) ∷ (2, 2) ∷ []) with_body).0.request_body ≡ with_body.request_body)
read_all-unread_example = read_all-unread ((1, 2) ∷ (2, 2) ∷ []) with_body

abbrev received : Base
received = record initial { response_body = codes "abc" }

write_all-joined_example :
    (received.response_body ≡ joined holds 10 (codes "ab" ∷ codes "c" ∷ []))
    × (length received.response_body ≤ 10)
unfolding curl_cb_write write_all
write_all-joined_example =
    write_all-joined holds 10 (codes "ab" ∷ codes "c" ∷ []) initial received (omega arith)
      (omega arith) refl

abbrev events : List Event
events = reads 1 2 ∷ seeks (pos 0) true ∷ writes 1 2 (codes "ab") ∷ header (codes "A: b") ∷ []

run-IsValid_example : IsValid 10 (run holds 10 events with_body)
unfolding set_request_body
run-IsValid_example =
    run-IsValid holds 10 events with_body (tt, (tt, (omega arith, (tt, tt))))
      (record { within = omega arith; bounded = omega arith })
