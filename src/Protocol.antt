-- ===== src/Protocol.antt =====
-- The control messages of the data channel establishment protocol, as
-- transport/owr_transport_agent.c writes and reads them.
pub mod RoundTrip
pub mod Safety
use Prim.Native.Nat.{bit_and, bit_or}
use openwebrtc.Prelude.{
  ℕ, zero, suc, ◌+◌, ◌%◌, ◌^◌, Bool, not, ◌&&◌, ◌||◌, Option, none, some, List, [], ◌∷◌, ◌++◌,
  length, take, drop, ltb, ◌==◌, if◌then◌else◌,
}
use openwebrtc.Prelude.Int.{ℤ, minus_one, eqb_ℤ, to_uint32, to_int32}
use openwebrtc.Gst.{ByteIo}
use openwebrtc.Outcome.{Outcome, ok, fault, out_of_bounds, ◌>>=◌}
use openwebrtc.Sctp.{
  message_type_ack, message_type_open_request, partial_reliable_remix,
  partial_reliable_remix_unordered, partial_reliable_timed, partial_reliable_timed_unordered,
}

-- g_strndup on a buffer of known size: the copy ends at a NUL or after n bytes, whichever comes
-- first, and a read past the end of the buffer is a fault.
unfoldable pub strndup : ℕ → List ℕ → Outcome (List ℕ)
strndup zero xs = ok []
strndup (suc n) [] = fault out_of_bounds
strndup (suc n) (x ∷ xs) =
    let rest = strndup n xs in if x == 0 then ok [] else rest >>= λ s. ok (x ∷ s)

-- What an open request says of a channel.
pub record OpenRequest : Type 0 where
  pub ordered : Bool
  pub max_packet_life_time : ℤ
  pub max_packet_retransmits : ℤ
  pub label : List ℕ
  pub protocol : List ℕ

-- The channel type and the reliability parameter that create_datachannel computes.
unfoldable pub channel_type : Bool → ℤ → ℤ → ℕ
channel_type ordered life_time retransmits =
    bit_or
      (bit_or (if ordered then 0 else 0x80) (if not (eqb_ℤ life_time minus_one) then 0x02 else 0))
      (if not (eqb_ℤ retransmits minus_one) then 0x01 else 0)

unfoldable pub reliability_param : ℤ → ℤ → ℕ
reliability_param life_time retransmits =
    let timed = if not (eqb_ℤ life_time minus_one) then to_uint32 life_time else 0 in
    (timed + (if not (eqb_ℤ retransmits minus_one) then to_uint32 retransmits else 0)) % 2 ^ 32

-- What the receiver makes of the two.
unfoldable pub is_ordered : ℕ → Bool
is_ordered kind = bit_and kind 0x80 == 0

unfoldable pub read_retransmits : ℕ → ℕ → ℤ
read_retransmits kind param =
    if (kind == partial_reliable_remix) || (kind == partial_reliable_remix_unordered)
    then to_int32 param
    else minus_one

unfoldable pub read_life_time : ℕ → ℕ → ℤ
read_life_time kind param =
    if (kind == partial_reliable_remix) || (kind == partial_reliable_remix_unordered)
    then minus_one
    else if (kind == partial_reliable_timed) || (kind == partial_reliable_timed_unordered)
    then to_int32 param
    else minus_one

module _ (io : ByteIo) where
  open io use {
    write_uint8, write_uint16_be, write_uint32_be, read_uint8, read_uint16_be, read_uint32_be,
  }

  -- create_datachannel_open_request, with the size that it returns beside the buffer.
  unfoldable pub create_datachannel_open_request : ℕ → ℕ → ℕ → List ℕ → ℕ → List ℕ → ℕ → List ℕ × ℕ
  create_datachannel_open_request kind param priority label label_len protocol protocol_len = (
    write_uint8 message_type_open_request
        ++ (write_uint8 kind
            ++ (write_uint16_be priority
                ++ (write_uint32_be param
                    ++ (write_uint16_be label_len
                        ++ (write_uint16_be protocol_len
                            ++ (take label_len label ++ take protocol_len protocol)))))),
    12 + label_len + protocol_len,
  )

  unfoldable pub create_datachannel_ack : List ℕ × ℕ
  create_datachannel_ack = (write_uint8 message_type_ack, 1)

  -- The part of handle_data_channel_open_request that reads the message, of 12 bytes at least.
  unfoldable pub parse_open_request : List ℕ → Outcome OpenRequest
  parse_open_request msg =
      let kind = read_uint8 (drop 1 msg) in
      let param = read_uint32_be (drop 4 msg) in
      let label_len = read_uint16_be (drop 8 msg) in
      let protocol_len = read_uint16_be (drop 10 msg) in
      strndup label_len (drop 12 msg) >>= λ label.
      strndup protocol_len (drop (12 + label_len) msg) >>= λ protocol. ok (record {
        ordered = is_ordered kind;
        max_packet_life_time = read_life_time kind param;
        max_packet_retransmits = read_retransmits kind param;
        label = label;
        protocol = protocol;
      })

  -- The message that create_datachannel sends for a channel.
  unfoldable pub open_request : OpenRequest → List ℕ × ℕ
  open_request r =
      create_datachannel_open_request
        (channel_type r.ordered r.max_packet_life_time r.max_packet_retransmits)
        (reliability_param r.max_packet_life_time r.max_packet_retransmits) 0 r.label
        (length r.label % 2 ^ 16) r.protocol (length r.protocol % 2 ^ 16)
