-- ===== src/Agent/Closing.antt =====
-- The end of a channel, and what a lock that was left taken does to it,
-- transport/owr_transport_agent.c.
use openwebrtc.Prelude.{
  ℕ, ◌≡◌, refl, true, false, none, some, List, [], ◌∷◌, ◌++◌, lookup, remove, lookup-insert_same,
}
use openwebrtc.Outcome.{ok, fault, deadlock}
use openwebrtc.DataChannel.{DataChannel, ReadyState, data_channel_close}
use openwebrtc.Agent.Events.{close_of}
use openwebrtc.Agent.{Agent, ChannelInfo, Session, closing, get_session, put_info, ready_state}
use openwebrtc.Gst.{ByteIo}
use openwebrtc.Agent.Open.{Elements, is_requested, on_new_datachannel, new_or_requested, take_up}
use openwebrtc.Agent.Close.{
  remove_elements, is_closing, close_removed, sctpdec_pad_removed, on_datachannel_close,
}

module _ (info : ChannelInfo) (session : Session) (ref : ℕ) (a : Agent)
    (free : info.read_locked ≡ false) (its_session : get_session a info.session_id ≡ some session)
    (object : lookup info.id session.data_channels ≡ some ref) where
  -- The agent without the channel, which has told its object of the closed state.
  abbrev forgotten : Agent
  forgotten = record a {
    data_channels = remove info.id a.data_channels;
    pads = remove info.id a.pads;
    tasks = a.tasks ++ ready_state ref ReadyState.closed ∷ [];
  }

abbrev pub closed_agent : ℕ → ℕ → Agent → Agent
closed_agent stream ref a = record a {
  data_channels = remove stream a.data_channels;
  pads = remove stream a.pads;
  tasks = a.tasks ++ ready_state ref ReadyState.closing ∷ ready_state ref ReadyState.closed ∷ [];
}

mismatch_held :
    (e : Elements) (io : ByteIo) (s ref : ℕ) (c : DataChannel) (info : ChannelInfo) (a : Agent)
    → a.data_session_established ≡ true
    → a.locked ≡ false
    → lookup ref a.objects ≡ some c
    → lookup c.id a.data_channels ≡ some info
    → is_requested c info ≡ false
    → on_new_datachannel e io s ref a ≡ ok (put_info c.id (record info { read_locked = true }) a)
unfolding on_new_datachannel new_or_requested take_up
mismatch_held e io s ref c info a established unlocked object found other =
    rw (established, object, found, other, unlocked) refl

-- With the entry's lock left taken, the removal of the pad of a channel that is not closing waits
-- for ever.
held_pad :
    (info : ChannelInfo) (a : Agent) (session : Session) (stream to : ℕ)
    → a.locked ≡ false
    → info.read_locked ≡ true
    → lookup stream a.data_channels ≡ some info
    → get_session a info.session_id ≡ some session
    → lookup info.id session.data_channels ≡ some to
    → is_closing info.state ≡ false
    → sctpdec_pad_removed stream a ≡ fault deadlock
unfolding sctpdec_pad_removed close_removed remove_elements
held_pad info a session stream to unlocked held entry its_session object alive =
    rw (entry, its_session, object, alive, held, unlocked) refl

-- An object without closures that the application adds under the id of a request that it does not
-- match leaves the lock of the request's entry taken. The agent goes on, but from then on the
-- application's close of the object does not reach it, and when the other side closes the stream,
-- and this side was not closing it, the agent waits for ever.
pub mismatch-deadlock :
    (e : Elements) (io : ByteIo) (s ref to : ℕ) (c : DataChannel) (info : ChannelInfo)
    (session : Session) (a : Agent)
    → a.data_session_established ≡ true
    → a.locked ≡ false
    → lookup ref a.objects ≡ some c
    → c.on_datachannel_close ≡ none
    → lookup c.id a.data_channels ≡ some info
    → get_session a info.session_id ≡ some session
    → lookup info.id session.data_channels ≡ some to
    → is_requested c info ≡ false
    → is_closing info.state ≡ false
    → (b : Agent) × (on_new_datachannel e io s ref a ≡ ok b)
      × (close_of ref b ≡ ok b)
      × (sctpdec_pad_removed c.id b ≡ fault deadlock)
unfolding close_of data_channel_close
mismatch-deadlock e io s ref to c info session a established unlocked its bare found i o other
      alive =
    let held : ChannelInfo = record info { read_locked = true } in
    let b = put_info c.id held a in
    (
      b,
      mismatch_held e io s ref c info a established unlocked its found other,
      rw (its, bare) refl,
      held_pad held b session c.id to unlocked refl (lookup-insert_same c.id held a.data_channels) i
          o alive,
    )
