-- ===== src/Agent.antt =====
-- The transport agent's side of data channels, transport/owr_transport_agent.c: its state, the
-- locks, and the helpers that the handlers in the modules below share.
pub mod Open
pub mod Receive
pub mod Close
pub mod Send
pub mod Ids
pub mod Requests
pub mod Handshake
pub mod Opening
pub mod EndToEnd
pub mod Delivery
pub mod Closing
pub mod Reliability
pub mod Bytes
pub mod Invariant
pub mod Events
pub mod Steps
use openwebrtc.Prelude.{
  ℕ, ◌+◌, ◌%◌, ◌^◌, Bool, true, false, not, ◌&&◌, ◌||◌, Option, none, some, List, [], ◌∷◌, ◌++◌,
  ◌==◌, if◌then◌else◌, Map, lookup, insert,
}
use openwebrtc.Prelude.Int.{ℤ, pos}
use openwebrtc.Outcome.{Outcome, deadlock, check}
use openwebrtc.Sctp.{Packet, ppid_control, reliable}
use openwebrtc.Protocol.{OpenRequest}
use openwebrtc.DataChannel.{DataChannel, ReadyState, set_ready_state}
use openwebrtc.DataChannel.Caps.{SctpCaps}

pub data State : Type 0 where
  connecting open_state closing closed : State

-- The agent's struct DataChannel. An element is there or NULL. `read_locked` says that rw_mutex
-- was left locked for reading by a function that has returned.
pub record ChannelInfo : Type 0 where
  pub state : State
  pub data_sink : Bool
  pub data_src : Bool
  pub session_id : ℕ
  pub ordered : Bool
  pub max_packet_life_time : ℤ
  pub max_packet_retransmits : ℤ
  pub protocol : Option (List ℕ)
  pub negotiated : Bool
  pub id : ℕ  -- guint16
  pub label : Option (List ℕ)
  pub ctrl_bytes_sent : ℕ  -- guint
  pub read_locked : Bool

-- A data session: the role in DTLS and the channels by id, each an address of an object.
pub record Session : Type 0 where
  pub dtls_client_mode : Bool
  pub data_channels : Map ℕ

-- A call that is scheduled on the main thread.
pub data Task : Type 0 where
  ready_state : ℕ → ReadyState → Task
  data_channel_requested : ℕ → OpenRequest → Bool → ℕ → Task
  incoming_data : ℕ → Bool → List ℕ → Task

-- `locked` says that data_channels_rw_mutex was left locked for writing by a function that has
-- returned. `objects` are the application's channels by address, `pads` the encoder's sink pads by
-- stream with their caps, `sent` the buffers pushed to the encoder, oldest first.
pub record Agent : Type 0 where
  pub sessions : Map Session
  pub data_channels : Map ChannelInfo
  pub data_session_established : Bool
  pub locked : Bool
  pub objects : Map DataChannel
  pub pads : Map (Option SctpCaps)
  pub sent : List Packet
  pub tasks : List Task

-- g_new0.
abbrev pub zero_info : ChannelInfo
zero_info = record {
  state = connecting;
  data_sink = false;
  data_src = false;
  session_id = 0;
  ordered = false;
  max_packet_life_time = pos 0;
  max_packet_retransmits = pos 0;
  protocol = none;
  negotiated = false;
  id = 0;
  label = none;
  ctrl_bytes_sent = 0;
  read_locked = false;
}

-- data_channels_rw_mutex, taken for reading or writing and released again.
abbrev pub lock_channels : Agent → Outcome (Unit {0})
lock_channels a = check (not a.locked) deadlock

-- A channel's rw_mutex, taken for writing and released again.
abbrev pub lock_info : ChannelInfo → Outcome (Unit {0})
lock_info info = check (not info.read_locked) deadlock

abbrev pub put_info : ℕ → ChannelInfo → Agent → Agent
put_info key info a = record a { data_channels = insert key info a.data_channels }

abbrev pub schedule : Task → Agent → Agent
schedule task a = record a { tasks = a.tasks ++ task ∷ [] }

abbrev pub get_session : Agent → ℕ → Option Session
get_session a stream_id = lookup stream_id a.sessions

-- The role decides the parity of the ids: a server takes odd ones, a client even ones.
unfoldable pub is_valid_sctp_stream_id : Agent → ℕ → ℕ → Bool → Bool
is_valid_sctp_stream_id a session_id stream remotely_initiated = elim (get_session a session_id) [
  | none ↦ false
  | some session ↦
      let id = stream % 2 ^ 16 in
      let is_client = session.dtls_client_mode in
      let result =
        not ((id == 65535) || ((id % 2 == 0) && not is_client) || ((id % 2 == 1) && is_client)) in
      if remotely_initiated then not result else result
]

-- A control message is pushed with reliable and ordered delivery. Without an appsrc the push
-- fails, and only the count changes.
unfoldable pub push_control : ℕ → ChannelInfo → List ℕ × ℕ → Agent → Agent
push_control key info (buf, buf_size) a =
    let counted =
      put_info key (record info { ctrl_bytes_sent = (info.ctrl_bytes_sent + buf_size) % 2 ^ 32 })
        a in
    if info.data_src then record counted { sent = counted.sent ++ packet ∷ [] } else counted
  where
    packet : Packet
    packet = record {
      stream = key;
      ppid = ppid_control;
      ordered = true;
      reliability = reliable;
      payload = buf;
    }

-- The main thread runs a scheduled call; the signals go to the application.
unfoldable pub run_task : Task → Agent → Agent
run_task (ready_state ref state) a = elim (lookup ref a.objects) [
  | none ↦ a
  | some c ↦ record a { objects = insert ref (set_ready_state c state).0 a.objects }
]
run_task (data_channel_requested session request negotiated id) a = a
run_task (incoming_data ref is_binary bytes) a = a
