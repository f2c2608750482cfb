-- ===== src/DataChannel/Buffered.antt =====
-- The amount of bytes that a data channel reports as buffered, transport/owr_data_channel.c.
use Prim.Native.Nat.{min}
use openwebrtc.Prelude.{
  ℕ, ◌+◌, ◌-◌, ◌^◌, ◌≤◌, ◌<◌, ◌≡◌, ◌⊎◌, inl, inr, Bool-cases, leb, none, some, List, length, arith,
}
use openwebrtc.DataChannel.{DataChannel, max_uint, max_chunk_size, send, get_buffered_amount}

-- The reported amount is what was sent less what the transport says has left, from 0 up to the
-- largest guint; with no closure to ask, all that was sent.
pub get_buffered_amount_lem :
    (c : DataChannel) (answer : ℕ → ℕ)
    → get_buffered_amount c answer
      ≡ min max_uint
          (c.bytes_sent - (elim c.on_request_bytes_sent [ none ↦ 0 | some f ↦ answer f ]))
unfolding get_buffered_amount
get_buffered_amount_lem c answer = ground arith

-- A text that is sent adds its length to the reported amount, if it is not too long, the transport
-- does not report more than was sent, the 64-bit counter does not wrap and the sum is a guint; a
-- text that is too long leaves the object as it was and schedules nothing.
pub send-get_buffered_amount :
    (c : DataChannel) (answer : ℕ → ℕ) (f : ℕ) (text : List ℕ)
    → c.on_request_bytes_sent ≡ some f
    → answer f ≤ c.bytes_sent
    → c.bytes_sent + length text < 2 ^ 64
    → c.bytes_sent + length text - answer f ≤ max_uint
    → ((length text ≤ max_chunk_size)
        × (get_buffered_amount (send c text).0 answer ≡ get_buffered_amount c answer + length text))
      ⊎ ((max_chunk_size < length text) × (send c text ≡ (c, none)))
unfolding get_buffered_amount send
send-get_buffered_amount c answer f text e p q r =
    elim (Bool-cases (leb (length text) max_chunk_size)) [
      | inl h ↦ inl (ground arith, ground arith)
      | inr h ↦ inr (ground arith, ground arith)
    ]
