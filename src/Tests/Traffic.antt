-- ===== src/Tests/Traffic.antt =====
-- A channel that is open on both sides: a message, the close, and requests that are not met.
use openwebrtc.Prelude.{
  ℕ, ◌-◌, ◌≡◌, refl, inr, true, some, List, [], ◌∷◌, arith, lookup, take, if◌then◌else◌,
}
use openwebrtc.Prelude.Int.{pos}
use openwebrtc.Outcome.{ok, fault, deadlock, out_of_bounds}
use openwebrtc.Protocol.{OpenRequest, parse_open_request}
use openwebrtc.Protocol.Safety.{parse_open_request-in_bounds, parse_open_request-beyond}
use openwebrtc.DataChannel.{DataChannel, SendCall, init, max_uint, get_buffered_amount}
use openwebrtc.DataChannel.Caps.{create_caps}
use openwebrtc.Agent.{Agent, ChannelInfo, open_state, schedule, incoming_data, zero_info}
use openwebrtc.Agent.Open.{new_info, is_requested, on_new_datachannel}
use openwebrtc.Agent.Events.{close_of}
use openwebrtc.Agent.Receive.{is_open, new_data_callback}
use openwebrtc.Agent.Send.{data_packet, on_datachannel_request_bytes_sent}
use openwebrtc.Agent.Close.{sctpdec_pad_removed}
use openwebrtc.Agent.Delivery.{data_packet-delivered}
use openwebrtc.Agent.Closing.{mismatch-deadlock}
use Prim.Native.Nat.{min}
use openwebrtc.Agent.Bytes.{get_buffered_amount-request}
use openwebrtc.Agent.Reliability.{create_caps-data_packet}
use openwebrtc.Sctp.{ppid_string}
use openwebrtc.Tests.Wire.{big_endian}
use openwebrtc.Tests.Agent.{agent, side, channel, all_found}

abbrev entry : ChannelInfo
entry = record zero_info {
  state = open_state;
  data_src = true;
  data_sink = true;
  session_id = 1;
  id = 2;
}

abbrev open_agent : Agent
open_agent = record (agent true) {
  data_channels = (2, entry) ∷ [];
  data_session_established = true;
}

abbrev text : List ℕ
text = 104 ∷ 105 ∷ []

abbrev call : SendCall
call = record { bytes = text; size = 2; is_binary = true }

data_packet-delivered_test :
    new_data_callback big_endian
      (data_packet 2 entry call).ppid
      (data_packet 2 entry call).payload
      2
      open_agent
    ≡ ok (
        if is_open entry.state
        then schedule (incoming_data 40 true (take 2 text)) open_agent
        else open_agent)
unfolding lookup
data_packet-delivered_test =
    data_packet-delivered big_endian open_agent entry (side true) 2 40 refl refl refl refl entry
      call

mismatch-deadlock_example :
    (b : Agent) × (on_new_datachannel all_found big_endian 1 40 open_agent ≡ ok b)
    × (close_of 40 b ≡ ok b)
    × (sctpdec_pad_removed 2 b ≡ fault deadlock)
unfolding lookup init is_requested
mismatch-deadlock_example =
    mismatch-deadlock all_found big_endian 1 40 40 channel entry (side true) open_agent refl refl
      refl refl refl refl refl refl refl

abbrev exact : List ℕ
exact = 3 ∷ 0 ∷ 0 ∷ 0 ∷ 0 ∷ 0 ∷ 0 ∷ 0 ∷ 0 ∷ 1 ∷ 0 ∷ 1 ∷ 99 ∷ 112 ∷ []

parse_open_request-in_bounds_example :
    (r : OpenRequest) × (parse_open_request big_endian exact ≡ ok r)
parse_open_request-in_bounds_example = parse_open_request-in_bounds big_endian exact (omega arith)

abbrev truncated : List ℕ
truncated = 3 ∷ 0 ∷ 0 ∷ 0 ∷ 0 ∷ 0 ∷ 0 ∷ 0 ∷ 0 ∷ 9 ∷ 0 ∷ 1 ∷ 99 ∷ 112 ∷ []

parse_open_request-beyond_example : parse_open_request big_endian truncated ≡ fault out_of_bounds
parse_open_request-beyond_example =
    parse_open_request-beyond big_endian truncated (omega arith) (omega arith) (omega arith)

abbrev timed : DataChannel
timed = record init { max_packet_life_time = pos 500; id = 2 }

create_caps-data_packet_example :
    create_caps timed
    ≡ some (record {
      ordered = (data_packet 2 (new_info 1 timed) call).ordered;
      ppid = ppid_string;
      reliability = some (data_packet 2 (new_info 1 timed) call).reliability;
    })
unfolding init
create_caps-data_packet_example =
    create_caps-data_packet timed 1 2 call (omega arith) refl (inr refl)

abbrev counted : DataChannel
counted = record channel { on_request_bytes_sent = some 2; bytes_sent = 30 }

abbrev counting_agent : Agent
counting_agent = record open_agent {
  data_channels = (2, record entry { ctrl_bytes_sent = 13 }) ∷ [];
  objects = (40, counted) ∷ [];
}

get_buffered_amount-request_example :
    (on_datachannel_request_bytes_sent 40 (λ stream. 33) counting_agent ≡ ok 20)
    × (get_buffered_amount counted (λ f. 20) ≡ min max_uint (30 - 20))
unfolding lookup init
get_buffered_amount-request_example =
    get_buffered_amount-request 40 2 20 (λ stream. 33) (λ f. 20) counting_agent counted
      (record entry { ctrl_bytes_sent = 13 }) (side true) refl refl refl refl refl refl
      (omega arith) refl
