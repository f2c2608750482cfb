-- ===== src/Agent/Open.antt =====
-- Data channels that this side opens, or takes up after an open request,
-- transport/owr_transport_agent.c.
use openwebrtc.Prelude.{
  ℕ, Bool, true, false, not, ◌&&◌, Option, none, some, List, [], ◌∷◌, ◌==◌, bytes_eq, if◌then◌else◌,
  Map, lookup, insert,
}
use openwebrtc.Prelude.Int.{minus_one, eqb_ℤ}
use openwebrtc.Outcome.{Outcome, ok, assertion, null_pointer, require, ◌>>=◌, ◌>>◌}
use openwebrtc.Gst.{ByteIo}
use openwebrtc.Protocol.{OpenRequest, open_request, create_datachannel_ack}
use openwebrtc.DataChannel.{DataChannel, ReadyState}
use openwebrtc.DataChannel.Caps.{create_caps}
use openwebrtc.DataChannel.Closures.{set_on_send, set_on_request_bytes_sent, set_on_close}
use openwebrtc.Agent.{
  open_state, ChannelInfo, Agent, Session, ready_state, zero_info, lock_channels, lock_info,
  put_info, schedule, get_session, is_valid_sctp_stream_id, push_control,
}

-- What GStreamer answers while an appsrc is made: whether the two elements are found, the pad is
-- granted, and the new element is linked and brought into the state of its parent.
pub record Elements : Type 0 where
  pub send_output_bin : Bool
  pub sctpenc : Bool
  pub sctpenc_sinkpad : Bool
  pub linked : Bool
  pub synced : Bool

-- The pad and the appsrc of a channel whose session is found.
unfoldable pub make_appsrc :
    Elements → DataChannel → ChannelInfo → Option Session → Agent → Agent × Bool
make_appsrc e c info none a = (a, false)
make_appsrc e c info (some session) a =
    if e.send_output_bin && e.sctpenc && e.sctpenc_sinkpad
    then (
      put_info c.id (record info { data_src = true })
          (record a { pads = insert c.id (create_caps c) a.pads }),
      e.linked && e.synced,
    )
    else (a, false)

unfoldable pub create_datachannel_appsrc : Elements → DataChannel → Agent → Outcome (Agent × Bool)
unfolding make_appsrc
create_datachannel_appsrc e c a = do
  lock_channels a
  info ← require (lookup c.id a.data_channels) assertion
  ok (make_appsrc e c info (get_session a info.session_id) a)

-- The struct that create_datachannel fills in from the object's properties.
unfoldable pub new_info : ℕ → DataChannel → ChannelInfo
new_info session_id c = record zero_info {
  id = c.id;
  label = some c.label;
  protocol = some c.protocol;
  session_id = session_id;
  negotiated = c.negotiated;
  ordered = c.ordered;
  max_packet_life_time = c.max_packet_life_time;
  max_packet_retransmits = c.max_retransmits;
}

abbrev pub request_of : DataChannel → OpenRequest
request_of c = record {
  ordered = c.ordered;
  max_packet_life_time = c.max_packet_life_time;
  max_packet_retransmits = c.max_retransmits;
  label = c.label;
  protocol = c.protocol;
}

abbrev pub contains {ℓ} : {V : Type ℓ} → ℕ → Map V → Bool
contains k m = elim (lookup k m) [ none ↦ false | some v ↦ true ]

-- The end of create_datachannel: a channel that is not negotiated is announced to the other side.
unfoldable pub announce : ByteIo → DataChannel → Agent × Bool → Outcome (Agent × Bool)
announce io c (a, false) = ok (a, false)
announce io c (a, true) =
    if c.negotiated
    then ok (a, true)
    else require (lookup c.id a.data_channels) null_pointer >>= λ info.
        ok (push_control c.id info (open_request io (request_of c)) a, true)

-- The middle of create_datachannel: a channel whose id is taken leaves data_channels_rw_mutex
-- locked.
unfoldable pub register_datachannel :
    Elements → ByteIo → ℕ → DataChannel → Agent → Outcome (Agent × Bool)
register_datachannel e io session_id c a =
    if contains c.id a.data_channels
    then ok (record a { locked = true }, false)
    else create_datachannel_appsrc e c (put_info c.id (new_info session_id c) a) >>= announce io c

abbrev pub has_both_limits : DataChannel → Bool
has_both_limits c =
    not (eqb_ℤ c.max_packet_life_time minus_one) && not (eqb_ℤ c.max_retransmits minus_one)

abbrev pub has_invalid_id : Agent → ℕ → DataChannel → Bool
has_invalid_id a session_id c =
    not c.negotiated && not (is_valid_sctp_stream_id a session_id c.id false)

unfoldable pub create_datachannel :
    Elements → ByteIo → ℕ → DataChannel → Agent → Outcome (Agent × Bool)
create_datachannel e io session_id c a =
    if has_both_limits c
    then ok (a, false)
    else if has_invalid_id a session_id c
    then ok (a, false)
    else lock_channels a >> register_datachannel e io session_id c a

-- complete_data_channel_and_ack goes on if no appsrc could be made.
unfoldable pub complete_data_channel_and_ack :
    Elements → ByteIo → DataChannel → Agent → Outcome Agent
complete_data_channel_and_ack e io c a = do
  (a', made) ← create_datachannel_appsrc e c a
  lock_channels a'
  info ← require (lookup c.id a'.data_channels) null_pointer
  ok (push_control c.id info (create_datachannel_ack io) a')

abbrev pub strcmp0 : List ℕ → Option (List ℕ) → Bool
strcmp0 s none = false
strcmp0 s (some t) = bytes_eq s t

abbrev pub eqb : Bool → Bool → Bool
eqb true b = b
eqb false b = not b

-- The channel that the application adds has to be the one that was requested.
unfoldable pub is_requested : DataChannel → ChannelInfo → Bool
is_requested c info =
    eqb c.ordered info.ordered
    && eqb c.negotiated info.negotiated
    && eqb_ℤ c.max_packet_life_time info.max_packet_life_time
    && eqb_ℤ c.max_retransmits info.max_packet_retransmits
    && strcmp0 c.protocol info.protocol
    && strcmp0 c.label info.label
    && (c.id == info.id)

-- The closures that the agent installs.
abbrev pub send_closure : ℕ
send_closure = 1

abbrev pub request_closure : ℕ
request_closure = 2

abbrev pub close_closure : ℕ
close_closure = 3

unfoldable pub install_closures : DataChannel → DataChannel
unfolding set_on_send set_on_request_bytes_sent set_on_close
install_closures c =
    (set_on_close
      (set_on_request_bytes_sent (set_on_send c (some send_closure)).0 (some request_closure)).0
      (some close_closure)).0

-- The channel is open for this side.
unfoldable pub open_channel : ℕ → DataChannel → Agent → Outcome Agent
open_channel ref c a = do
  lock_channels a
  info ← require (lookup c.id a.data_channels) null_pointer
  lock_info info
  ok (
      schedule (ready_state ref ReadyState.open_state)
        (put_info c.id (record info { state = open_state }) a))

-- The end of on_new_datachannel.
unfoldable pub finish_datachannel :
    Elements → ByteIo → ℕ → DataChannel → Bool → Agent → Outcome Agent
finish_datachannel e io ref c remote_initiated a =
    let a' = record a { objects = insert ref (install_closures c) a.objects } in
    if remote_initiated
    then complete_data_channel_and_ack e io c a' >>= open_channel ref c
    else if c.negotiated
    then open_channel ref c a'
    else ok a'

-- The two ways of on_new_datachannel. A channel that does not match the request leaves its
-- rw_mutex locked.
unfoldable pub open_locally : Elements → ByteIo → ℕ → ℕ → DataChannel → Agent → Outcome Agent
open_locally e io session_id ref c a = create_datachannel e io session_id c a >>= λ r.
    if r.1 then finish_datachannel e io ref c false r.0 else ok r.0

unfoldable pub take_up : Elements → ByteIo → ℕ → DataChannel → ChannelInfo → Agent → Outcome Agent
take_up e io ref c info a =
    if is_requested c info
    then finish_datachannel e io ref c true a
    else ok (put_info c.id (record info { read_locked = true }) a)

unfoldable pub new_or_requested :
    Elements → ByteIo → ℕ → ℕ → DataChannel → Option ChannelInfo → Agent → Outcome Agent
new_or_requested e io session_id ref c none a = open_locally e io session_id ref c a
new_or_requested e io session_id ref c (some info) a = take_up e io ref c info a

unfoldable pub on_new_datachannel : Elements → ByteIo → ℕ → ℕ → Agent → Outcome Agent
unfolding new_or_requested
on_new_datachannel e io session_id ref a =
    if not a.data_session_established
    then ok a
    else require (lookup ref a.objects) null_pointer >>= λ c.
        lock_channels a >> new_or_requested e io session_id ref c (lookup c.id a.data_channels) a

-- on_sctp_association_established, for the channels of the session in the order of its table.
unfoldable pub add_all : Elements → ByteIo → ℕ → List (ℕ × ℕ) → Agent → Outcome Agent
add_all e io session_id [] a = ok a
add_all e io session_id ((id, ref) ∷ rest) a =
    on_new_datachannel e io session_id ref a >>= add_all e io session_id rest

unfoldable pub on_sctp_association_established :
    Elements → ByteIo → Bool → ℕ → Agent → Outcome Agent
unfolding add_all
on_sctp_association_established e io established session_id a =
    let a' = record a { data_session_established = established } in
    if established
    then (require (get_session a session_id) assertion >>= λ session.
        add_all e io session_id session.data_channels a')
    else ok a'
