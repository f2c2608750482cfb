-- ===== src/Agent/Steps.antt =====
-- What every event that the transport agent handles keeps,
-- transport/owr_transport_agent.c.
use openwebrtc.Prelude.{
  Option, none, some, ℕ, ◌^◌, ◌<◌, ◌≡◌, refl, Bool, true, false, not, ◌&&◌, none, some, List, [],
  ◌∷◌, length, ltb, ◌==◌, if_both, arith, lookup, insert, remove, sym, subst, ◌∙◌,
}
use openwebrtc.Outcome.{
  Ensures, bind-Ensures, bind_any-Ensures, require-Ensures, check-Ensures, if-Ensures,
}
use openwebrtc.Gst.{ByteIo}
use openwebrtc.Sctp.{
  message_type_ack, message_type_open_request, ppid_control, ppid_string, ppid_binary,
}
use openwebrtc.Protocol.{parse_open_request}
use openwebrtc.DataChannel.{SendCall, set_ready_state}
use openwebrtc.Agent.{
  Agent, ChannelInfo, open_state, closing, Task, run_task, ready_state, data_channel_requested,
  incoming_data, get_session, is_valid_sctp_stream_id,
}
use openwebrtc.Agent.Receive.{
  requested_info, accept_open_request, object_of, handle_data_channel_open_request,
  handle_data_channel_ack, handle_data_channel_control_message, handle_data_channel_message,
  is_open, new_data_callback,
}
use openwebrtc.Agent.Close.{
  pad_info, forget_data_channel, close_removed, sctpdec_pad_added, maybe_close_data_channel,
  remove_elements, is_closing, sctpdec_pad_removed, on_datachannel_close,
}
use openwebrtc.Agent.Send.{on_datachannel_send}
use openwebrtc.Agent.Invariant.{
  Keyed, Inv, put-Inv, other-Inv, remove-Keyed, on_new_datachannel-Inv, established-Inv,
}
use openwebrtc.DataChannel.{data_channel_send, data_channel_close}
use openwebrtc.Agent.Events.{
  invoke_send, invoke_close, send_on, close_of, Event, association_established, channel_added,
  pad_added, pad_removed, message, send, close, main_loop, step, run,
}

accept-Inv :
    (io : ByteIo) (msg : List ℕ) (stream : ℕ) (a : Agent)
    → Inv a
    → Ensures Inv (accept_open_request io msg stream a)
unfolding accept_open_request requested_info
accept-Inv io msg stream a v = check-Ensures Inv (not a.locked) _ _ λ _.
    bind_any-Ensures Inv (parse_open_request io msg) _ λ r.
      require-Ensures Inv (lookup stream a.data_channels) _ _ λ info found.
        other-Inv _ refl refl (put-Inv stream (requested_info r info) (v.keyed stream info found) v)

open_request-Inv :
    (io : ByteIo) (msg : List ℕ) (stream : ℕ) (a : Agent)
    → Inv a
    → Ensures Inv (handle_data_channel_open_request io msg stream a)
unfolding handle_data_channel_open_request
open_request-Inv io msg stream a v =
    if-Ensures Inv (ltb (length msg) 12) _ _ (λ _. v) (λ _. accept-Inv io msg stream a v)

ack-Inv : (stream : ℕ) (a : Agent) → Inv a → Ensures Inv (handle_data_channel_ack stream a)
unfolding handle_data_channel_ack
ack-Inv stream a v = check-Ensures Inv (not a.locked) _ _ λ _.
    require-Ensures Inv (lookup stream a.data_channels) _ _ λ info found.
      check-Ensures Inv (not info.read_locked) _ _ λ _.
        require-Ensures Inv (get_session a info.session_id) _ _ λ session _.
          require-Ensures Inv (lookup info.id session.data_channels) _ _ λ ref _.
            other-Inv _ refl refl
              (put-Inv stream (record info { state = open_state }) (v.keyed stream info found) v)

control-Inv :
    (io : ByteIo) (msg : List ℕ) (stream : ℕ) (a : Agent)
    → Inv a
    → Ensures Inv (handle_data_channel_control_message io msg stream a)
unfolding handle_data_channel_control_message
control-Inv io msg stream a v =
    if-Ensures Inv (length msg == 0) _ _ (λ _. v)
      λ _.
        if-Ensures Inv (io.read_uint8 msg == message_type_open_request) _ _
          (λ _. open_request-Inv io msg stream a v)
          λ _.
            if-Ensures Inv (io.read_uint8 msg == message_type_ack) _ _ (λ _. ack-Inv stream a v)
              (λ _. v)

message-Inv :
    (bytes : List ℕ) (stream : ℕ) (is_binary : Bool) (a : Agent)
    → Inv a
    → Ensures Inv (handle_data_channel_message bytes stream is_binary a)
unfolding handle_data_channel_message
message-Inv bytes stream is_binary a v = check-Ensures Inv (not a.locked) _ _ λ _.
    require-Ensures Inv (lookup stream a.data_channels) _ _ λ info _.
      if-Ensures Inv (is_open info.state) _ _
        (λ _. bind_any-Ensures Inv (object_of a info) _ λ ref. other-Inv _ refl refl v) (λ _. v)

new_data-Inv :
    (io : ByteIo) (ppid : ℕ) (bytes : List ℕ) (stream : ℕ) (a : Agent)
    → Inv a
    → Ensures Inv (new_data_callback io ppid bytes stream a)
unfolding new_data_callback
new_data-Inv io ppid bytes stream a v =
    if-Ensures Inv (ppid == ppid_control) _ _ (λ _. control-Inv io bytes stream a v)
      λ _.
        if-Ensures Inv (ppid == ppid_string) _ _ (λ _. message-Inv bytes stream false a v)
          λ _.
            if-Ensures Inv (ppid == ppid_binary) _ _ (λ _. message-Inv bytes stream true a v)
              (λ _. v)

remove_key-Inv :
    (key : ℕ) {a : Agent} (b : Agent)
    → b.data_channels ≡ remove key a.data_channels
    → b.locked ≡ a.locked
    → Inv a
    → Inv b
remove_key-Inv key {a} b e f v = record {
  keyed = subst Keyed (sym e) (remove-Keyed key a.data_channels v.keyed);
  unlocked = f ∙ v.unlocked;
}

pad_added-Inv :
    (session_id stream : ℕ) (a : Agent)
    → stream < 2 ^ 16
    → Inv a
    → Ensures Inv (sctpdec_pad_added session_id stream a)
unfolding sctpdec_pad_added
pad_added-Inv session_id stream a h v =
    let found = pad_info session_id (lookup stream a.data_channels) in
    check-Ensures Inv (not a.locked) _ _ λ _.
      if-Ensures Inv
        (not found.0.negotiated && not (is_valid_sctp_stream_id a session_id stream found.1)) _ _
        (λ _. remove_key-Inv stream _ refl refl v)
        λ _. check-Ensures Inv (not found.0.data_sink) _ _ λ _. put-Inv stream _ (omega arith) v

forget-Inv : (info : ChannelInfo) (a : Agent) → Inv a → Ensures Inv (forget_data_channel info a)
unfolding forget_data_channel
forget-Inv info a v = require-Ensures Inv (get_session a info.session_id) _ _ λ session _.
    require-Ensures Inv (lookup info.id session.data_channels) _ _
      λ ref _. remove_key-Inv info.id _ refl refl v

maybe_close-Inv :
    (info : ChannelInfo) (a : Agent) → Inv a → Ensures Inv (maybe_close_data_channel info a)
unfolding maybe_close_data_channel
maybe_close-Inv info a v = check-Ensures Inv (not info.read_locked) _ _ λ _.
    if-Ensures Inv (not info.data_sink && not info.data_src) _ _ (λ _. forget-Inv info a v) (λ _. v)

remove_elements-Inv :
    (stream : ℕ) (info : ChannelInfo) (a : Agent)
    → info.id ≡ stream
    → Inv a
    → Ensures Inv (remove_elements stream info a)
unfolding remove_elements
remove_elements-Inv stream info a h v =
    let bare = record info { state = closing; data_sink = false; data_src = false } in
    check-Ensures Inv (not info.read_locked) _ _
      λ _. maybe_close-Inv bare _ (put-Inv stream bare h (other-Inv _ refl refl v))

pad_removed-Inv : (stream : ℕ) (a : Agent) → Inv a → Ensures Inv (sctpdec_pad_removed stream a)
unfolding sctpdec_pad_removed close_removed
pad_removed-Inv stream a v = check-Ensures Inv (not a.locked) _ _ λ _.
    require-Ensures Inv (lookup stream a.data_channels) _ _ λ info found.
      if-Ensures Inv (is_closing info.state) _ _ (λ _. v)
        λ _. require-Ensures Inv (get_session a info.session_id) _ _ λ session _.
          require-Ensures Inv (lookup info.id session.data_channels) _ _ λ ref _.
            remove_elements-Inv stream info _ (v.keyed stream info found) (other-Inv _ refl refl v)

close-Inv : (ref : ℕ) (a : Agent) → Inv a → Ensures Inv (on_datachannel_close ref a)
unfolding on_datachannel_close
close-Inv ref a v = require-Ensures Inv (lookup ref a.objects) _ _ λ c _.
    check-Ensures Inv (not a.locked) _ _ λ _.
      require-Ensures Inv (lookup c.id a.data_channels) _ _ λ info found.
        remove_elements-Inv c.id info _ (v.keyed c.id info found) (other-Inv _ refl refl v)

send-Inv :
    (ref : ℕ) (call : SendCall) (a : Agent) → Inv a → Ensures Inv (on_datachannel_send ref call a)
unfolding on_datachannel_send
send-Inv ref call a v = require-Ensures Inv (lookup ref a.objects) _ _ λ c _.
    check-Ensures Inv (not a.locked) _ _ λ _.
      require-Ensures Inv (lookup c.id a.data_channels) _ _
        λ info _. if_both Inv info.data_src _ _ (other-Inv _ refl refl v) v

run_task-Inv : (task : Task) (a : Agent) → Inv a → Inv (run_task task a)
unfolding run_task
run_task-Inv (ready_state ref state) a v =
    elim (lookup ref a.objects)
      as (λ o. Inv (elim o [
        | none ↦ a
        | some c ↦ record a { objects = insert ref (set_ready_state c state).0 a.objects }
      ])) [ none ↦ v | some c ↦ other-Inv _ refl refl v ]
run_task-Inv (data_channel_requested session request negotiated id) a v = v
run_task-Inv (incoming_data ref is_binary bytes) a v = v

invoke_send-Inv :
    (ref : ℕ) (o : Option (ℕ × SendCall)) (a : Agent) → Inv a → Ensures Inv (invoke_send ref o a)
invoke_send-Inv ref none a v = v
invoke_send-Inv ref (some (closure, call)) a v = send-Inv ref call a v

invoke_close-Inv : (ref : ℕ) (o : Option ℕ) (a : Agent) → Inv a → Ensures Inv (invoke_close ref o a)
invoke_close-Inv ref none a v = v
invoke_close-Inv ref (some closure) a v = close-Inv ref a v

step-Inv : (io : ByteIo) (e : Event) (a : Agent) → Inv a → Ensures Inv (step io e a)
unfolding step send_on close_of
step-Inv io (association_established e established s) a v = established-Inv e io established s a v
step-Inv io (channel_added e s ref) a v = on_new_datachannel-Inv e io s ref a v
step-Inv io (pad_added s stream h) a v = pad_added-Inv s stream a h v
step-Inv io (pad_removed stream) a v = pad_removed-Inv stream a v
step-Inv io (message ppid bytes stream) a v = new_data-Inv io ppid bytes stream a v
step-Inv io (send ref call) a v =
    require-Ensures Inv (lookup ref a.objects) _ _
      λ c _. invoke_send-Inv ref (data_channel_send c call) a v
step-Inv io (close ref) a v =
    require-Ensures Inv (lookup ref a.objects) _ _
      λ c _. invoke_close-Inv ref (data_channel_close c) a v
step-Inv io (main_loop task) a v = run_task-Inv task a v

-- Whatever events the agent handles, in whatever order, a run from a state in which the table's
-- lock is free and each entry stands under its own id ends, if no event faults, in such a state.
pub run-Inv : (io : ByteIo) (es : List Event) (a : Agent) → Inv a → Ensures Inv (run io es a)
unfolding run
run-Inv io [] a v = v
run-Inv io (e ∷ es) a v =
    bind-Ensures Inv Inv (step io e a) (run io es) (step-Inv io e a v) (run-Inv io es)
