-- ===== src/Tests/Agent.antt =====
-- Two sides of a data session and the channel between them.
use openwebrtc.Prelude.{
  insert, remove, ◌≡◌, refl, Bool, true, false, not, List, [], ◌∷◌, arith, lookup,
}
use openwebrtc.DataChannel.{data_channel_close, DataChannel, init}
use openwebrtc.Outcome.{Ensures, ok, ◌>>=◌}
use openwebrtc.Agent.{push_control, Agent, Session, is_valid_sctp_stream_id}
use openwebrtc.Agent.Ids.{valid_ids_agree, reserved_id_accepted}
use openwebrtc.Agent.Open.{
  on_sctp_association_established, on_new_datachannel, open_locally, create_datachannel,
  register_datachannel, create_datachannel_appsrc, announce, new_info, finish_datachannel, add_all,
  install_closures, new_or_requested, Elements,
}
use openwebrtc.Agent.Events.{step, close_of, Event, association_established, message, close, run}
use openwebrtc.Agent.Invariant.{Inv}
use openwebrtc.Agent.Steps.{run-Inv}
use openwebrtc.Agent.Receive.{
  new_data_callback, handle_data_channel_control_message, handle_data_channel_ack,
}
use openwebrtc.Agent.Close.{
  forget_data_channel, maybe_close_data_channel, on_datachannel_close, remove_elements,
}
use openwebrtc.DataChannel.Closures.{set_on_close, set_on_request_bytes_sent, set_on_send}
use openwebrtc.Tests.Wire.{big_endian}

abbrev pub side : Bool → Session
side is_client = record { dtls_client_mode = is_client; data_channels = (2, 40) ∷ [] }

abbrev pub channel : DataChannel
channel = record init { id = 2; label = 99 ∷ [] }

abbrev pub agent : Bool → Agent
agent is_client = record {
  sessions = (1, side is_client) ∷ [];
  data_channels = [];
  data_session_established = false;
  locked = false;
  objects = (40, channel) ∷ [];
  pads = [];
  sent = [];
  tasks = [];
}

valid_ids_agree_example :
    (is_valid_sctp_stream_id (agent true) 1 2 false
      ≡ is_valid_sctp_stream_id (agent false) 1 2 true)
    × (is_valid_sctp_stream_id (agent true) 1 2 false
        ≡ not (is_valid_sctp_stream_id (agent false) 1 2 false))
unfolding lookup
valid_ids_agree_example =
    valid_ids_agree (agent true) (agent false) 1 1 2 (side true) (side false) refl refl refl
      (omega arith)

reserved_id_accepted_example :
    (is_valid_sctp_stream_id (agent true) 1 65535 true ≡ true)
    × (is_valid_sctp_stream_id (agent true) 1 65535 false ≡ false)
unfolding lookup
reserved_id_accepted_example = reserved_id_accepted (agent true) 1 (side true) refl

abbrev pub all_found : Elements
all_found = record {
  send_output_bin = true;
  sctpenc = true;
  sctpenc_sinkpad = true;
  linked = true;
  synced = true;
}

agent-Inv : Inv (agent true)
unfolding lookup
agent-Inv = record { keyed = λ k info e. cc; unlocked = refl }

abbrev events : List Event
events = association_established all_found true 1 ∷ message 50 (2 ∷ []) 2 ∷ close 40 ∷ []

run-Inv_example : Ensures Inv (run big_endian events (agent true))
run-Inv_example = run-Inv big_endian events (agent true) agent-Inv

-- In that run the close reaches the agent by the closure, and the channel is forgotten.
closed_test : (run big_endian events (agent true) >>= λ a. ok (a.data_channels)) ≡ ok []
unfolding run step on_sctp_association_established lookup on_new_datachannel open_locally
    create_datachannel init is_valid_sctp_stream_id register_datachannel create_datachannel_appsrc
    insert announce new_info finish_datachannel new_data_callback
    handle_data_channel_control_message forget_data_channel maybe_close_data_channel
    on_datachannel_close remove_elements close_of add_all install_closures new_or_requested
    handle_data_channel_ack push_control set_on_close set_on_request_bytes_sent set_on_send
    data_channel_close remove
closed_test = refl
