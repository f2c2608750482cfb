-- ===== src/Agent/Send.antt =====
-- Messages that the application sends, and the bytes that have left, transport/owr_transport_agent.c.
use openwebrtc.Prelude.{
  ℕ, ◌+◌, ◌-◌, ◌%◌, ◌^◌, not, ◌&&◌, [], ◌∷◌, ◌++◌, take, if◌then◌else◌, lookup,
}
use openwebrtc.Prelude.Int.{ℤ, minus_one, eqb_ℤ, to_uint32}
use openwebrtc.Outcome.{Outcome, ok, null_pointer, require, ◌>>=◌, ◌>>◌}
use openwebrtc.Sctp.{Packet, Reliability, reliable, rtx, ttl, ppid_string, ppid_binary}
use openwebrtc.DataChannel.{SendCall}
use openwebrtc.Agent.{ChannelInfo, Agent, lock_channels, get_session}

-- The reliability of a message, from the channel's two limits.
unfoldable pub send_reliability : ℤ → ℤ → Reliability
send_reliability life_time retransmits =
    if eqb_ℤ life_time minus_one && eqb_ℤ retransmits minus_one
    then reliable
    else if not (eqb_ℤ life_time minus_one)
    then ttl (to_uint32 life_time)
    else rtx (to_uint32 retransmits)

unfoldable pub data_packet : ℕ → ChannelInfo → SendCall → Packet
unfolding send_reliability
data_packet stream info call = record {
  stream = stream;
  ppid = if call.is_binary then ppid_binary else ppid_string;
  ordered = info.ordered;
  reliability = send_reliability info.max_packet_life_time info.max_packet_retransmits;
  payload = take call.size call.bytes;
}

unfoldable pub on_datachannel_send : ℕ → SendCall → Agent → Outcome Agent
unfolding data_packet
on_datachannel_send ref call a = do
  c ← require (lookup ref a.objects) null_pointer
  lock_channels a
  info ← require (lookup c.id a.data_channels) null_pointer
  ok (if info.data_src then record a { sent = a.sent ++ data_packet c.id info call ∷ [] } else a)

-- on_datachannel_request_bytes_sent: the bytes that the encoder has sent on the stream, less those
-- of control messages, in unsigned arithmetic of 64 bits.
unfoldable pub on_datachannel_request_bytes_sent : ℕ → (ℕ → ℕ) → Agent → Outcome ℕ
on_datachannel_request_bytes_sent ref bytes_sent a = do
  c ← require (lookup ref a.objects) null_pointer
  lock_channels a
  info ← require (lookup c.id a.data_channels) null_pointer
  session ← require (get_session a info.session_id) null_pointer
  ok ((bytes_sent c.id + 2 ^ 64 - info.ctrl_bytes_sent) % 2 ^ 64)
