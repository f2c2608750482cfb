-- ===== src/Agent/Close.antt =====
-- Pads of the SCTP decoder that come and go, and the end of a data channel,
-- transport/owr_transport_agent.c.
use openwebrtc.Prelude.{
  ℕ, ◌%◌, ◌^◌, Bool, true, false, not, ◌&&◌, Option, none, some, if◌then◌else◌, lookup, remove,
}
use openwebrtc.Outcome.{Outcome, ok, assertion, null_pointer, require, check, ◌>>=◌, ◌>>◌}
use openwebrtc.DataChannel.{ReadyState}
use openwebrtc.Agent.{
  State, closing, ChannelInfo, Agent, ready_state, zero_info, lock_channels, lock_info, put_info,
  schedule, get_session, is_valid_sctp_stream_id,
}

-- sctpdec_pad_added: the first message on a stream. A channel that is not known is taken for one
-- that the other side opens.
unfoldable pub pad_info : ℕ → Option ChannelInfo → ChannelInfo × Bool
pad_info session_id none = (record zero_info { session_id = session_id }, true)
pad_info session_id (some info) = (info, false)

unfoldable pub sctpdec_pad_added : ℕ → ℕ → Agent → Outcome Agent
sctpdec_pad_added session_id stream a =
    let found = pad_info session_id (lookup stream a.data_channels) in
    let valid_id = is_valid_sctp_stream_id a session_id stream found.1 in
    lock_channels a
    >> (if not found.0.negotiated && not valid_id
        then ok (record a { data_channels = remove stream a.data_channels })
        else check (not found.0.data_sink) assertion
          >> ok (put_info stream (record (found.0) { data_sink = true; id = stream % 2 ^ 16 }) a))

-- The closed state is scheduled for the session's object, and the entry is stolen and freed.
unfoldable pub forget_data_channel : ChannelInfo → Agent → Outcome Agent
forget_data_channel info a = do
  session ← require (get_session a info.session_id) null_pointer
  ref ← require (lookup info.id session.data_channels) null_pointer
  ok (record (schedule (ready_state ref ReadyState.closed) a) {
    data_channels = remove info.id a.data_channels;
  })

-- maybe_close_data_channel: once both elements are gone the channel is closed and forgotten.
unfoldable pub maybe_close_data_channel : ChannelInfo → Agent → Outcome Agent
maybe_close_data_channel info a =
    lock_info info
    >> (if not info.data_sink && not info.data_src then forget_data_channel info a else ok a)

-- Both elements are removed and the encoder's pad is released; then the channel is closed.
unfoldable pub remove_elements : ℕ → ChannelInfo → Agent → Outcome Agent
remove_elements stream info a =
    let bare = record info { state = closing; data_sink = false; data_src = false } in
    lock_info info
    >> maybe_close_data_channel bare
        (put_info stream bare (record a { pads = remove stream a.pads }))

abbrev pub is_closing : State → Bool
is_closing closing = true
is_closing _ = false

unfoldable pub close_removed : ℕ → ChannelInfo → Agent → Outcome Agent
close_removed stream info a = do
  session ← require (get_session a info.session_id) assertion
  ref ← require (lookup info.id session.data_channels) assertion
  remove_elements stream info (schedule (ready_state ref ReadyState.closing) a)

-- sctpdec_pad_removed: the other side has closed the stream.
unfoldable pub sctpdec_pad_removed : ℕ → Agent → Outcome Agent
sctpdec_pad_removed stream a = do
  lock_channels a
  info ← require (lookup stream a.data_channels) assertion
  if is_closing info.state then ok a else close_removed stream info a

-- on_datachannel_close: the application closes the channel.
unfoldable pub on_datachannel_close : ℕ → Agent → Outcome Agent
on_datachannel_close ref a = do
  c ← require (lookup ref a.objects) null_pointer
  lock_channels a
  info ← require (lookup c.id a.data_channels) assertion
  remove_elements c.id info (schedule (ready_state ref ReadyState.closing) a)
