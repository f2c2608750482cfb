-- ===== src/Agent/Handshake.antt =====
-- How a channel becomes open on either side, transport/owr_transport_agent.c.
use openwebrtc.Prelude.{
  ℕ, ◌+◌, ◌%◌, ◌^◌, ◌≡◌, ◌∙◌, refl, true, false, ◌&&◌, some, List, [], ◌∷◌, ◌++◌, lookup, insert,
  lookup-insert_same, insert-insert,
}
use openwebrtc.Outcome.{ok}
use openwebrtc.Gst.{ByteIo}
use openwebrtc.Sctp.{Packet, ppid_control, reliable}
use openwebrtc.Protocol.{create_datachannel_ack}
use openwebrtc.DataChannel.{DataChannel, ReadyState}
use openwebrtc.DataChannel.Caps.{create_caps}
use openwebrtc.Agent.{
  Agent, ChannelInfo, open_state, Session, get_session, push_control, ready_state, put_info,
}
use openwebrtc.Agent.Open.{
  Elements, make_appsrc, create_datachannel_appsrc, complete_data_channel_and_ack, open_channel,
  finish_datachannel, take_up, new_or_requested, on_new_datachannel, install_closures, is_requested,
}

abbrev pub control_packet : ℕ → List ℕ → Packet
control_packet stream bytes = record {
  stream = stream;
  ppid = ppid_control;
  ordered = true;
  reliability = reliable;
  payload = bytes;
}

-- The entry with an appsrc, after a control message of n bytes.
abbrev pub announced : ChannelInfo → ℕ → ChannelInfo
announced info n = record info {
  data_src = true;
  ctrl_bytes_sent = (info.ctrl_bytes_sent + n) % 2 ^ 32;
}

module _ (e : Elements) (io : ByteIo) (c : DataChannel) (info : ChannelInfo) (session : Session)
    (a : Agent) (made : (e.send_output_bin && e.sctpenc && e.sctpenc_sinkpad) ≡ true)
    (unlocked : a.locked ≡ false) (found : lookup c.id a.data_channels ≡ some info)
    (its_session : get_session a info.session_id ≡ some session) where
  abbrev pub with_appsrc : Agent
  with_appsrc =
      put_info c.id (record info { data_src = true })
        (record a { pads = insert c.id (create_caps c) a.pads })

  pub appsrc_made : create_datachannel_appsrc e c a ≡ ok (with_appsrc, e.linked && e.synced)
  unfolding create_datachannel_appsrc make_appsrc
  appsrc_made = rw (unlocked, found, its_session, made) refl

  abbrev acked : Agent
  acked = record a {
    data_channels = insert c.id (announced info 1) a.data_channels;
    pads = insert c.id (create_caps c) a.pads;
    sent = a.sent ++ control_packet c.id (create_datachannel_ack io).0 ∷ [];
  }

  ack_sent : complete_data_channel_and_ack e io c a ≡ ok acked
  unfolding complete_data_channel_and_ack push_control create_datachannel_ack
  ack_sent =
      rw
        (
          appsrc_made,
          unlocked,
          lookup-insert_same c.id (record info { data_src = true }) a.data_channels,
          insert-insert c.id (record info { data_src = true }) (announced info 1) a.data_channels,
        )
        refl

module _ (e : Elements) (io : ByteIo) (s ref : ℕ) (c : DataChannel) (info : ChannelInfo)
    (session : Session) (a : Agent)
    (made : (e.send_output_bin && e.sctpenc && e.sctpenc_sinkpad) ≡ true)
    (established : a.data_session_established ≡ true) (unlocked : a.locked ≡ false)
    (free : info.read_locked ≡ false) (object : lookup ref a.objects ≡ some c)
    (found : lookup c.id a.data_channels ≡ some info)
    (its_session : get_session a info.session_id ≡ some session) where
  its_entry : on_new_datachannel e io s ref a ≡ take_up e io ref c info a
  unfolding on_new_datachannel new_or_requested
  its_entry = rw (established, object, unlocked, found) refl

  abbrev installed : Agent
  installed = record a { objects = insert ref (install_closures c) a.objects }

  opened :
      open_channel ref c (acked e io c info session installed made unlocked found its_session)
      ≡ ok (record a {
        data_channels =
            insert c.id (record (announced info 1) { state = open_state }) a.data_channels;
        objects = insert ref (install_closures c) a.objects;
        pads = insert c.id (create_caps c) a.pads;
        sent = a.sent ++ control_packet c.id (create_datachannel_ack io).0 ∷ [];
        tasks = a.tasks ++ ready_state ref ReadyState.open_state ∷ [];
      })
  unfolding open_channel
  opened =
      rw
        (
          unlocked,
          lookup-insert_same c.id (announced info 1) a.data_channels,
          insert-insert c.id (announced info 1) (record (announced info 1) { state = open_state })
              a.data_channels,
          free,
        )
        refl

  -- A channel that the application adds and that is the requested one is opened: an ACK and nothing
  -- else is sent on its stream, the agent's closures are installed on the object, its entry is
  -- open with an appsrc and has counted the ACK's byte, the open state of the object is scheduled,
  -- and nothing else changes.
  pub on_new_datachannel-requested :
      is_requested c info ≡ true
      → on_new_datachannel e io s ref a
        ≡ ok (record a {
          data_channels =
              insert c.id (record (announced info 1) { state = open_state }) a.data_channels;
          objects = insert ref (install_closures c) a.objects;
          pads = insert c.id (create_caps c) a.pads;
          sent = a.sent ++ control_packet c.id (create_datachannel_ack io).0 ∷ [];
          tasks = a.tasks ++ ready_state ref ReadyState.open_state ∷ [];
        })
  unfolding take_up finish_datachannel
  on_new_datachannel-requested requested =
      its_entry
      ∙ rw (requested, ack_sent e io c info session installed made unlocked found its_session)
          opened
