-- ===== src/Tests/Handshake.antt =====
-- A client opens channel 2 to a server.
use openwebrtc.Prelude.{◌≡◌, ◌↔◌, refl, inl, true, false, [], arith, lookup}
use openwebrtc.Protocol.RoundTrip.{IsValid}
use openwebrtc.DataChannel.{init}
use openwebrtc.Agent.{Agent, ChannelInfo, is_valid_sctp_stream_id, zero_info}
use openwebrtc.Agent.Open.{request_of, is_requested}
use openwebrtc.Agent.Receive.{requested_info}
use openwebrtc.Agent.EndToEnd.{Ready, Opens, handshake}
use openwebrtc.Agent.Requests.{requested_info-is_requested}
use openwebrtc.Tests.Wire.{big_endian, big_endian-IsByteIo}
use openwebrtc.Tests.Agent.{agent, side, channel, all_found}

abbrev pub client : Agent
client = record (agent true) { data_session_established = true }

abbrev pub server : Agent
server = record (agent false) { data_session_established = true; objects = [] }

channel-IsValid : IsValid (request_of channel)
unfolding init
channel-IsValid = record {
  life_time = refl;
  retransmits = refl;
  one_limit = inl refl;
  label_fits = omega arith;
  label_text = omega arith;
  protocol_fits = omega arith;
  protocol_text = tt;
}

sides-Ready : Ready all_found all_found 1 1 40 channel (side true) (side false) client server
unfolding lookup init is_valid_sctp_stream_id
sides-Ready = record {
  made_here = refl;
  live_here = refl;
  made_there = refl;
  established_here = refl;
  established_there = refl;
  unlocked_here = refl;
  unlocked_there = refl;
  session_here = refl;
  session_there = refl;
  roles = refl;
  unknown_here = refl;
  unknown_there = refl;
  object = refl;
  in_session = refl;
  asks = refl;
  one_limit = refl;
  valid = channel-IsValid;
  valid_id = refl;
  small = omega arith;
}

handshake_example : Opens big_endian all_found all_found 1 1 40 50 channel channel client server
unfolding init
handshake_example =
    handshake big_endian big_endian-IsByteIo all_found all_found 1 1 40 50 channel channel
      (side true) (side false) client server sides-Ready refl refl refl

abbrev entry : ChannelInfo
entry = record zero_info { id = 2 }

requested_info-is_requested_example :
    (is_requested channel (requested_info (request_of channel) entry) ≡ true)
    ↔ ((request_of channel ≡ request_of channel) × (channel.negotiated ≡ false) × (channel.id ≡ 2))
requested_info-is_requested_example = requested_info-is_requested channel (request_of channel) entry
