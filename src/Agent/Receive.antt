-- ===== src/Agent/Receive.antt =====
-- Messages that arrive on a data channel, transport/owr_transport_agent.c.
use openwebrtc.Prelude.{ℕ, Bool, true, false, some, List, length, ltb, ◌==◌, if◌then◌else◌, lookup}
use openwebrtc.Outcome.{Outcome, ok, assertion, null_pointer, require, ◌>>=◌, ◌>>◌}
use openwebrtc.Gst.{ByteIo}
use openwebrtc.Sctp.{
  message_type_ack, message_type_open_request, ppid_control, ppid_string, ppid_binary,
}
use openwebrtc.Protocol.{OpenRequest, parse_open_request}
use openwebrtc.DataChannel.{ReadyState}
use openwebrtc.Agent.{
  State, open_state, ChannelInfo, Agent, ready_state, data_channel_requested, incoming_data,
  lock_channels, lock_info, put_info, schedule, get_session,
}

-- What an open request makes of the channel that the pad has brought.
unfoldable pub requested_info : OpenRequest → ChannelInfo → ChannelInfo
requested_info r info = record info {
  label = some r.label;
  protocol = some r.protocol;
  negotiated = false;
  ordered = r.ordered;
  max_packet_life_time = r.max_packet_life_time;
  max_packet_retransmits = r.max_packet_retransmits;
  ctrl_bytes_sent = 0;
}

-- A message of 12 bytes at least. A size that the lengths in the message contradict draws a warning
-- only. The signal is emitted on the session of the channel; if that is gone, on nothing.
unfoldable pub accept_open_request : ByteIo → List ℕ → ℕ → Agent → Outcome Agent
accept_open_request io msg stream a = do
  lock_channels a
  r ← parse_open_request io msg
  info ← require (lookup stream a.data_channels) null_pointer
  ok (
      schedule (data_channel_requested info.session_id r false info.id)
        (put_info stream (requested_info r info) a))

unfoldable pub handle_data_channel_open_request : ByteIo → List ℕ → ℕ → Agent → Outcome Agent
handle_data_channel_open_request io msg stream a =
    if ltb (length msg) 12 then ok a else accept_open_request io msg stream a

-- An ACK opens the channel, whatever state it is in.
unfoldable pub handle_data_channel_ack : ℕ → Agent → Outcome Agent
handle_data_channel_ack stream a = do
  lock_channels a
  info ← require (lookup stream a.data_channels) assertion
  lock_info info
  session ← require (get_session a info.session_id) assertion
  ref ← require (lookup info.id session.data_channels) assertion
  ok (
      schedule (ready_state ref ReadyState.open_state)
        (put_info stream (record info { state = open_state }) a))

unfoldable pub handle_data_channel_control_message : ByteIo → List ℕ → ℕ → Agent → Outcome Agent
handle_data_channel_control_message io msg stream a =
    if length msg == 0
    then ok a
    else if io.read_uint8 msg == message_type_open_request
    then handle_data_channel_open_request io msg stream a
    else if io.read_uint8 msg == message_type_ack
    then handle_data_channel_ack stream a
    else ok a

abbrev pub is_open : State → Bool
is_open open_state = true
is_open _ = false

-- The object that the session keeps for a channel.
unfoldable pub object_of : Agent → ChannelInfo → Outcome ℕ
object_of a info = do
  session ← require (get_session a info.session_id) null_pointer
  require (lookup info.id session.data_channels) assertion

unfoldable pub handle_data_channel_message : List ℕ → ℕ → Bool → Agent → Outcome Agent
handle_data_channel_message bytes stream is_binary a = do
  lock_channels a
  info ← require (lookup stream a.data_channels) assertion
  if is_open info.state
      then (object_of a info >>= λ ref. ok (schedule (incoming_data ref is_binary bytes) a))
      else ok a

-- new_data_callback for a buffer that is there and is mapped: a message by its identifier; the
-- deprecated and the unknown ones draw a warning.
unfoldable pub new_data_callback : ByteIo → ℕ → List ℕ → ℕ → Agent → Outcome Agent
new_data_callback io ppid bytes stream a =
    if ppid == ppid_control
    then handle_data_channel_control_message io bytes stream a
    else if ppid == ppid_string
    then handle_data_channel_message bytes stream false a
    else if ppid == ppid_binary
    then handle_data_channel_message bytes stream true a
    else ok a
