-- ===== src/Tests/DataChannel.antt =====
-- A data channel object with closures, a text that is sent, and two limits.
use openwebrtc.Prelude.{
  ℕ, ◌+◌, ◌≤◌, ◌<◌, ◌≡◌, refl, ◌⊎◌, none, some, List, [], ◌∷◌, ◌++◌, arith, length,
}
use openwebrtc.DataChannel.{DataChannel, init, send, get_buffered_amount, max_chunk_size}
use openwebrtc.DataChannel.Closures.{
  ClosureOp, on_send, on_close, clear, clear_closures, run, count, all_given,
  clear_closures-releases,
}
use openwebrtc.DataChannel.Buffered.{send-get_buffered_amount}

abbrev text : List ℕ
text = 104 ∷ 105 ∷ []

abbrev busy : DataChannel
busy = record init { on_request_bytes_sent = some 7; bytes_sent = 12 }

abbrev answer : ℕ → ℕ
answer f = f + 1

send-get_buffered_amount_example :
    ((length text ≤ max_chunk_size)
      × (get_buffered_amount (send busy text).0 answer
          ≡ get_buffered_amount busy answer + length text))
    ⊎ ((max_chunk_size < length text) × (send busy text ≡ (busy, none)))
unfolding init
send-get_buffered_amount_example =
    send-get_buffered_amount busy answer 7 text refl (omega arith) (omega arith) (omega arith)

abbrev ops : List ClosureOp
ops = on_send (some 1) ∷ on_close (some 3) ∷ on_send (some 2) ∷ clear ∷ on_close (some 2) ∷ []

clear_closures-releases_example :
    count 2 ((run init ops).1 ++ (clear_closures (run init ops).0).1) ≡ count 2 (all_given ops)
clear_closures-releases_example = clear_closures-releases 2 ops
