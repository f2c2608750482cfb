-- ===== src/Agent/Delivery.antt =====
-- A message from the application that sends it to the application that gets it,
-- transport/owr_transport_agent.c and transport/owr_data_channel.c.
use openwebrtc.Prelude.{ℕ, ◌≡◌, Bool, true, false, some, List, arith, take, lookup, if◌then◌else◌}
use openwebrtc.Outcome.{ok}
use openwebrtc.Gst.{ByteIo}
use openwebrtc.Sctp.{ppid_string, ppid_binary}
use openwebrtc.DataChannel.{DataChannel, SendCall}
use openwebrtc.Agent.{Agent, ChannelInfo, Session, get_session, schedule, incoming_data}
use openwebrtc.Agent.Receive.{is_open, object_of, handle_data_channel_message, new_data_callback}
use openwebrtc.Agent.Send.{data_packet}

module _ (io : ByteIo) (b : Agent) (info : ChannelInfo) (there : Session) (stream ref : ℕ)
    (unlocked : b.locked ≡ false) (entry : lookup stream b.data_channels ≡ some info)
    (its_session : get_session b info.session_id ≡ some there)
    (object : lookup info.id there.data_channels ≡ some ref) where
  received :
      (bytes : List ℕ) (is_binary : Bool)
      → handle_data_channel_message bytes stream is_binary b
        ≡ ok (if is_open info.state then schedule (incoming_data ref is_binary bytes) b else b)
  unfolding handle_data_channel_message object_of
  received bytes is_binary = ground (arith, unlocked, entry, its_session, object)

  -- A text or binary packet that a channel's side makes of a call reaches the object on the other
  -- side, with its kind and its bytes, exactly if the entry there is open; if it is not, nothing
  -- changes.
  pub data_packet-delivered :
      (sender : ChannelInfo) (call : SendCall)
      → new_data_callback io
          (data_packet stream sender call).ppid
          (data_packet stream sender call).payload
          stream
          b
        ≡ ok (
            if is_open info.state
            then schedule (incoming_data ref call.is_binary (take call.size call.bytes)) b
            else b)
  unfolding new_data_callback data_packet
  data_packet-delivered sender call =
      elim call.is_binary
        as (λ binary.
          new_data_callback io (if binary then ppid_binary else ppid_string)
            (take call.size call.bytes) stream b
          ≡ ok (
              if is_open info.state
              then schedule (incoming_data ref binary (take call.size call.bytes)) b
              else b)) [
                | true ↦ received (take call.size call.bytes) true
                | false ↦ received (take call.size call.bytes) false
              ]
