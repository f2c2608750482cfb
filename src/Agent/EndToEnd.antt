-- ===== src/Agent/EndToEnd.antt =====
-- A channel from the application that opens it to the application on the other side and back,
-- transport/owr_transport_agent.c.
use openwebrtc.Prelude.{
  ℕ, ◌<◌, ◌≡◌, ◌∙◌, refl, sym, ap, subst, true, false, not, ◌&&◌, none, some, [], ◌∷◌, ◌++◌, arith,
  lookup, insert, lookup-insert_same,
}
use openwebrtc.Outcome.{ok}
use openwebrtc.Gst.{ByteIo, IsByteIo}
use openwebrtc.Sctp.{Packet, ppid_control}
use openwebrtc.Protocol.{create_datachannel_ack, open_request}
use openwebrtc.Protocol.RoundTrip.{IsValid}
use openwebrtc.DataChannel.{DataChannel, ReadyState}
use openwebrtc.DataChannel.Caps.{create_caps}
use openwebrtc.Agent.{
  Agent, ChannelInfo, open_state, Session, get_session, ready_state, put_info, schedule,
  is_valid_sctp_stream_id, zero_info, data_channel_requested,
}
use openwebrtc.Agent.Open.{
  Elements, has_both_limits, new_info, request_of, on_new_datachannel, install_closures,
}
use openwebrtc.Agent.Close.{sctpdec_pad_added}
use openwebrtc.Agent.Receive.{requested_info, new_data_callback}
use openwebrtc.Agent.Ids.{valid_ids_agree}
use openwebrtc.Agent.Requests.{requested_info-is_requested, control_message-request}
use openwebrtc.Agent.Handshake.{announced, control_packet, on_new_datachannel-requested}
use openwebrtc.Agent.Opening.{
  after_request, on_new_datachannel-opens, control_message-ack, pad_added-new,
}

-- What the two sides are and have before a channel c is opened from one to the other. All elements
-- are made, the sessions are established, in opposite roles, and do not know the id of c, no lock
-- is held; c is an object of the session, not negotiated, with valid parameters and an id that
-- its side may open.
pub record Ready (e f : Elements) (s t ref : ℕ) (c : DataChannel) (here there : Session)
    (a b : Agent) : Type 0 where
  pub made_here : (e.send_output_bin && e.sctpenc && e.sctpenc_sinkpad) ≡ true
  pub live_here : (e.linked && e.synced) ≡ true
  pub made_there : (f.send_output_bin && f.sctpenc && f.sctpenc_sinkpad) ≡ true
  pub established_here : a.data_session_established ≡ true
  pub established_there : b.data_session_established ≡ true
  pub unlocked_here : a.locked ≡ false
  pub unlocked_there : b.locked ≡ false
  pub session_here : get_session a s ≡ some here
  pub session_there : get_session b t ≡ some there
  pub roles : here.dtls_client_mode ≡ not there.dtls_client_mode
  pub unknown_here : lookup c.id a.data_channels ≡ none
  pub unknown_there : lookup c.id b.data_channels ≡ none
  pub object : lookup ref a.objects ≡ some c
  pub in_session : lookup c.id here.data_channels ≡ some ref
  pub asks : c.negotiated ≡ false
  pub one_limit : has_both_limits c ≡ false
  pub valid : IsValid (request_of c)
  pub valid_id : is_valid_sctp_stream_id a s c.id false ≡ true
  pub small : c.id < 65535

-- The steps of the two sides, and where they end: the first side announces c by a packet p; the pad
-- of p's stream and p itself arrive on the other side, whose application is told of the request
-- and adds the object d; the other side answers by a packet q, which arrives on the first side.
pub record Opens (io : ByteIo) (e f : Elements) (s t ref other : ℕ) (c d : DataChannel)
    (a b : Agent) : Type 0 where
  pub announcing : Agent
  pub with_pad : Agent
  pub told : Agent
  pub answering : Agent
  pub answered : Agent
  pub p : Packet
  pub q : Packet
  pub announces : on_new_datachannel e io s ref a ≡ ok announcing
  pub sends : announcing.sent ≡ a.sent ++ p ∷ []
  pub makes_pad : sctpdec_pad_added t p.stream b ≡ ok with_pad
  pub receives : new_data_callback io p.ppid p.payload p.stream with_pad ≡ ok told
  pub tells : told.tasks ≡ b.tasks ++ data_channel_requested t (request_of c) false c.id ∷ []
  pub takes_up :
      on_new_datachannel f io t other (record told { objects = insert other d told.objects })
      ≡ ok answering
  pub answers : answering.sent ≡ b.sent ++ q ∷ []
  pub completes : new_data_callback io q.ppid q.payload q.stream announcing ≡ ok answered
  pub entry_here :
      (info : ChannelInfo) × (lookup c.id answered.data_channels ≡ some info)
      × (info.state ≡ open_state)
  pub entry_there :
      (info : ChannelInfo) × (lookup c.id answering.data_channels ≡ some info)
      × (info.state ≡ open_state)
  pub opened_here : answered.tasks ≡ a.tasks ++ ready_state ref ReadyState.open_state ∷ []
  pub opened_there : answering.tasks ≡ told.tasks ++ ready_state other ReadyState.open_state ∷ []

module _ (io : ByteIo) (laws : IsByteIo io) (e f : Elements) (s t ref other : ℕ) (c d : DataChannel)
    (here there : Session) (a b : Agent) (r : Ready e f s t ref c here there a b)
    (same_request : request_of d ≡ request_of c) (d_asks : d.negotiated ≡ false)
    (same_id : c.id ≡ d.id) where
  -- The entry that the pad makes on the other side, and what the request makes of it.
  abbrev pad_entry : ChannelInfo
  pad_entry = record zero_info { session_id = t; data_sink = true; id = d.id }

  abbrev request_entry : ChannelInfo
  request_entry = requested_info (request_of c) pad_entry

  abbrev waiting : Agent
  waiting = record (after_request io s c a) { objects = insert ref (install_closures c) a.objects }

  abbrev padded : Agent
  padded = put_info d.id pad_entry b

  abbrev informed : Agent
  informed =
      schedule (data_channel_requested t (request_of c) false d.id)
        (put_info d.id request_entry padded)

  abbrev supplied : Agent
  supplied = record informed { objects = insert other d b.objects }

  abbrev answering_side : Agent
  answering_side = record supplied {
    data_channels =
        insert d.id (record (announced request_entry 1) { state = open_state })
          informed.data_channels;
    objects = insert other (install_closures d) supplied.objects;
    pads = insert d.id (create_caps d) b.pads;
    sent = b.sent ++ control_packet d.id (create_datachannel_ack io).0 ∷ [];
    tasks = informed.tasks ++ ready_state other ReadyState.open_state ∷ [];
  }

  abbrev waiting_entry : ChannelInfo
  waiting_entry = announced (new_info s c) (open_request io (request_of c)).1

  abbrev answered_side : Agent
  answered_side =
      schedule (ready_state ref ReadyState.open_state)
        (put_info d.id (record waiting_entry { state = open_state }) waiting)

  valid_there : is_valid_sctp_stream_id b t c.id true ≡ true
  valid_there =
      sym (valid_ids_agree a b s t c.id here there r.session_here r.session_there r.roles r.small).0
      ∙ r.valid_id

  pad_made : sctpdec_pad_added t c.id b ≡ ok padded
  pad_made =
      subst
        (λ k.
          sctpdec_pad_added t c.id b
          ≡ ok (put_info k (record zero_info { session_id = t; data_sink = true; id = k }) b))
        same_id
        (pad_added-new io laws c.id b r.unlocked_there t r.unknown_there valid_there
          (omega (arith, r.small)))

  request_received :
      new_data_callback io ppid_control (open_request io (request_of c)).0 c.id padded ≡ ok informed
  unfolding new_data_callback
  request_received =
      subst
        (λ k.
          new_data_callback io ppid_control (open_request io (request_of c)).0 k padded
          ≡ ok informed)
        (sym same_id)
        (control_message-request io laws (request_of c) d.id padded pad_entry r.valid
          r.unlocked_there (lookup-insert_same d.id pad_entry b.data_channels))

  taken_up : on_new_datachannel f io t other supplied ≡ ok answering_side
  unfolding requested_info
  taken_up =
      on_new_datachannel-requested f io t other d request_entry there supplied r.made_there
        r.established_there r.unlocked_there refl (lookup-insert_same other d b.objects)
        (lookup-insert_same d.id request_entry padded.data_channels) r.session_there
        ((requested_info-is_requested d (request_of c) pad_entry).1 (same_request, d_asks, refl))

  ack_received :
      new_data_callback io ppid_control (create_datachannel_ack io).0 d.id waiting
      ≡ ok answered_side
  unfolding new_data_callback new_info
  ack_received =
      control_message-ack io laws d.id waiting r.unlocked_here waiting_entry here ref
        (subst (λ k. lookup k waiting.data_channels ≡ some waiting_entry) same_id
          (lookup-insert_same c.id waiting_entry a.data_channels))
        refl r.session_here r.in_session

  -- Between two sides in opposite roles whose sessions are established, with all elements made and
  -- no lock held, for an object of the first session that is not negotiated, has valid parameters
  -- and an id below 65535 that its side may open and no side has an entry for: the open request,
  -- the pad, the other application's object with the parameters and the id that it is told of, and
  -- the ACK all go through, and they leave the channel open on both sides and both objects told.
  pub handshake : Opens io e f s t ref other c d a b
  handshake = record {
    announcing = waiting;
    with_pad = padded;
    told = informed;
    answering = answering_side;
    answered = answered_side;
    p = control_packet c.id (open_request io (request_of c)).0;
    q = control_packet d.id (create_datachannel_ack io).0;
    announces =
        on_new_datachannel-opens e io s ref c here a r.made_here r.live_here r.established_here
          r.unlocked_here r.object r.unknown_here r.session_here r.asks r.one_limit r.valid_id;
    sends = refl;
    makes_pad = pad_made;
    receives = request_received;
    tells = ap (λ k. b.tasks ++ data_channel_requested t (request_of c) false k ∷ []) (sym same_id);
    takes_up = taken_up;
    answers = refl;
    completes = ack_received;
    entry_here = (
      record waiting_entry { state = open_state },
      subst
          (λ k.
            lookup k answered_side.data_channels
            ≡ some (record waiting_entry { state = open_state }))
          (sym same_id)
          (lookup-insert_same d.id (record waiting_entry { state = open_state })
            waiting.data_channels),
      refl,
    );
    entry_there = (
      record (announced request_entry 1) { state = open_state },
      subst
          (λ k.
            lookup k answering_side.data_channels
            ≡ some (record (announced request_entry 1) { state = open_state }))
          (sym same_id)
          (lookup-insert_same d.id (record (announced request_entry 1) { state = open_state })
            informed.data_channels),
      refl,
    );
    opened_here = refl;
    opened_there = refl;
  }
