-- ===== src/Agent/Opening.antt =====
-- The side that opens a channel, and the entry that the first message makes on the other side,
-- transport/owr_transport_agent.c.
use mathlib.Core.List.{append-nil}
use openwebrtc.Prelude.{
  ℕ, ◌%◌, ◌^◌, ◌<◌, ◌≡◌, ◌∙◌, refl, ap, sym, true, false, ◌&&◌, none, some, [], ◌∷◌, ◌++◌, arith,
  length, lookup, insert, lookup-insert_same, insert-insert,
}
use openwebrtc.Outcome.{ok}
use openwebrtc.Gst.{ByteIo, IsByteIo}
use openwebrtc.Sctp.{message_type_ack}
use openwebrtc.Protocol.{create_datachannel_ack, open_request}
use openwebrtc.DataChannel.{DataChannel, ReadyState}
use openwebrtc.DataChannel.Caps.{create_caps}
use openwebrtc.Agent.{
  Agent, ChannelInfo, open_state, Session, get_session, push_control, ready_state, put_info,
  schedule, is_valid_sctp_stream_id, zero_info,
}
use openwebrtc.Agent.Open.{
  Elements, contains, has_both_limits, has_invalid_id, new_info, request_of, announce,
  register_datachannel, create_datachannel, finish_datachannel, open_locally, new_or_requested,
  on_new_datachannel, install_closures,
}
use openwebrtc.Agent.Close.{sctpdec_pad_added, pad_info}
use openwebrtc.Agent.Receive.{handle_data_channel_ack, handle_data_channel_control_message}
use openwebrtc.Agent.Handshake.{announced, control_packet, appsrc_made}

-- The state in which a channel of a session waits for the ACK to its open request.
abbrev pub after_request : ByteIo → ℕ → DataChannel → Agent → Agent
after_request io s c a = record a {
  data_channels =
      insert c.id (announced (new_info s c) (open_request io (request_of c)).1) a.data_channels;
  pads = insert c.id (create_caps c) a.pads;
  sent = a.sent ++ control_packet c.id (open_request io (request_of c)).0 ∷ [];
}

module _ (e : Elements) (io : ByteIo) (s ref : ℕ) (c : DataChannel) (session : Session) (a : Agent)
    (made : (e.send_output_bin && e.sctpenc && e.sctpenc_sinkpad) ≡ true)
    (live : (e.linked && e.synced) ≡ true) (established : a.data_session_established ≡ true)
    (unlocked : a.locked ≡ false) (object : lookup ref a.objects ≡ some c)
    (unknown : lookup c.id a.data_channels ≡ none) (its_session : get_session a s ≡ some session)
    (asks : c.negotiated ≡ false) (one_limit : has_both_limits c ≡ false)
    (valid_id : is_valid_sctp_stream_id a s c.id false ≡ true) where
  abbrev requested : Agent
  requested = after_request io s c a

  no_entry : contains c.id a.data_channels ≡ false
  no_entry = rw (contains, unknown) refl

  abbrev fresh : Agent
  fresh = put_info c.id (new_info s c) a

  fresh_session : get_session fresh (new_info s c).session_id ≡ some session
  unfolding new_info
  fresh_session = its_session

  abbrev with_source : ChannelInfo
  with_source = record (new_info s c) { data_src = true }

  abbrev told : ChannelInfo
  told = announced (new_info s c) (open_request io (request_of c)).1

  announced_lem :
      announce io c (
        record a {
          data_channels = insert c.id with_source a.data_channels;
          pads = insert c.id (create_caps c) a.pads;
        },
        true,
      )
      ≡ ok (requested, true)
  unfolding announce push_control
  announced_lem =
      rw
        (
          lookup-insert_same c.id with_source a.data_channels,
          insert-insert c.id with_source told a.data_channels,
          asks,
        )
        refl

  registered : register_datachannel e io s c a ≡ ok (requested, true)
  unfolding register_datachannel
  registered =
      rw
        (
          no_entry,
          appsrc_made e io c (new_info s c) session fresh made unlocked
              (lookup-insert_same c.id (new_info s c) a.data_channels) fresh_session,
          live,
          insert-insert c.id (new_info s c) with_source a.data_channels,
        )
        announced_lem

  id_allowed : has_invalid_id a s c ≡ false
  id_allowed = ground (arith, valid_id, asks)

  created : create_datachannel e io s c a ≡ ok (requested, true)
  unfolding create_datachannel
  created = rw (one_limit, id_allowed, registered, unlocked) refl

  its_way : on_new_datachannel e io s ref a ≡ open_locally e io s ref c a
  unfolding on_new_datachannel new_or_requested
  its_way = rw (established, object, unlocked, unknown) refl

  unfinished :
      finish_datachannel e io ref c false requested
      ≡ ok (record requested { objects = insert ref (install_closures c) a.objects })
  unfolding finish_datachannel
  unfinished = rw asks refl

  -- A channel that the application adds, that no entry has the id of, that is not negotiated, has
  -- one limit at most and an id that this side may open, is announced: its open request and
  -- nothing else is sent, the agent's closures are installed, and its new entry waits for the ACK
  -- with an appsrc.
  pub on_new_datachannel-opens :
      on_new_datachannel e io s ref a
      ≡ ok (record (after_request io s c a) { objects = insert ref (install_closures c) a.objects })
  unfolding open_locally
  on_new_datachannel-opens = its_way ∙ rw created unfinished

module _ (io : ByteIo) (laws : IsByteIo io) (stream : ℕ) (a : Agent)
    (unlocked : a.locked ≡ false) where
  ack-kind : io.read_uint8 (create_datachannel_ack io).0 ≡ 2
  unfolding create_datachannel_ack
  ack-kind =
      ap io.read_uint8 (sym (append-nil (io.write_uint8 message_type_ack)))
      ∙ laws.read-write_uint8 message_type_ack []

  ack-length : length (create_datachannel_ack io).0 ≡ 1
  unfolding create_datachannel_ack
  ack-length = laws.length-write_uint8 message_type_ack

  -- An ACK of the other side opens the entry, whatever state it is in, and schedules the open state
  -- of the session's object; nothing else changes.
  pub control_message-ack :
      (info : ChannelInfo) (session : Session) (ref : ℕ)
      → lookup stream a.data_channels ≡ some info
      → info.read_locked ≡ false
      → get_session a info.session_id ≡ some session
      → lookup info.id session.data_channels ≡ some ref
      → handle_data_channel_control_message io (create_datachannel_ack io).0 stream a
        ≡ ok (
            schedule
              (ready_state ref ReadyState.open_state)
              (put_info stream (record info { state = open_state }) a))
  unfolding handle_data_channel_control_message handle_data_channel_ack
  control_message-ack info session ref found free its object =
      rw (ack-length, ack-kind, unlocked, found, its, object, free) refl

  -- The first message on a stream that no entry has the number of, and that the other side may
  -- open, makes an entry with an appsink.
  pub pad_added-new :
      (s : ℕ)
      → lookup stream a.data_channels ≡ none
      → is_valid_sctp_stream_id a s stream true ≡ true
      → stream < 2 ^ 16
      → sctpdec_pad_added s stream a
        ≡ ok
            (put_info stream (record zero_info { session_id = s; data_sink = true; id = stream }) a)
  unfolding sctpdec_pad_added pad_info
  pad_added-new s unknown valid small =
      let e : stream % 2 ^ 16 ≡ stream = omega arith in rw (unknown, valid, e, unlocked) refl
