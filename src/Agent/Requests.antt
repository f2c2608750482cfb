-- ===== src/Agent/Requests.antt =====
-- An open request on its way from one side's object to the other side's table and object,
-- transport/owr_transport_agent.c.
use openwebrtc.Prelude.{
  ℕ, ◌≤◌, ◌≡◌, ◌↔◌, refl, Bool, true, false, some, arith, length, length-append, ltb, ◌==◌,
  bytes_eq_refl, bytes_eq_sound, lookup, subst,
}
use openwebrtc.Prelude.Int.{eqb_ℤ_refl, eqb_ℤ_sound}
use openwebrtc.Outcome.{ok}
use openwebrtc.Gst.{ByteIo, IsByteIo}
use openwebrtc.Protocol.{OpenRequest, open_request, create_datachannel_open_request}
use openwebrtc.Protocol.RoundTrip.{IsValid, parse-open_request}
use openwebrtc.DataChannel.{DataChannel}
use openwebrtc.Agent.{Agent, ChannelInfo, schedule, put_info, data_channel_requested}
use openwebrtc.Agent.Open.{is_requested, request_of, eqb}
use openwebrtc.Agent.Receive.{
  requested_info, accept_open_request, handle_data_channel_open_request,
  handle_data_channel_control_message,
}

eqb_refl : (b : Bool) → eqb b b ≡ true
eqb_refl true = refl
eqb_refl false = refl

eqb_sound : (a b : Bool) → eqb a b ≡ true → a ≡ b
eqb_sound true b h = ground arith
eqb_sound false b h = ground arith

-- After an open request, the channel that the application adds is taken for the requested one
-- exactly if it asks for the same order, limits, protocol and label, is not negotiated, and has
-- the id of the entry.
pub requested_info-is_requested :
    (c : DataChannel) (r : OpenRequest) (info : ChannelInfo)
    → (is_requested c (requested_info r info) ≡ true)
      ↔ ((request_of c ≡ r) × (c.negotiated ≡ false) × (c.id ≡ info.id))
unfolding is_requested requested_info
requested_info-is_requested c r info = (sound, complete)
  where
    sound :
        is_requested c (requested_info r info) ≡ true
        → (request_of c ≡ r) × (c.negotiated ≡ false) × (c.id ≡ info.id)
    sound h =
        let o : c.ordered ≡ r.ordered = ground (arith, eqb_sound c.ordered r.ordered) in
        let n : c.negotiated ≡ false = ground (arith, eqb_sound c.negotiated false) in
        let l : c.max_packet_life_time ≡ r.max_packet_life_time =
          ground (arith, eqb_ℤ_sound c.max_packet_life_time r.max_packet_life_time) in
        let t : c.max_retransmits ≡ r.max_packet_retransmits =
          ground (arith, eqb_ℤ_sound c.max_retransmits r.max_packet_retransmits) in
        let p : c.protocol ≡ r.protocol = ground (arith, bytes_eq_sound c.protocol r.protocol) in
        let b : c.label ≡ r.label = ground (arith, bytes_eq_sound c.label r.label) in
        let e : c.id ≡ info.id = ground arith in
        (
          λ i. record {
            ordered = o i;
            max_packet_life_time = l i;
            max_packet_retransmits = t i;
            label = b i;
            protocol = p i;
          },
          n,
          e,
        )

    complete :
        (request_of c ≡ r) × (c.negotiated ≡ false) × (c.id ≡ info.id)
        → is_requested c (requested_info r info) ≡ true
    complete (e, n, k) =
        subst (λ q. is_requested c (requested_info q info) ≡ true) e
          (ground (
            arith,
            eqb_refl c.ordered,
            eqb_ℤ_refl c.max_packet_life_time,
            eqb_ℤ_refl c.max_retransmits,
            bytes_eq_refl c.protocol,
            bytes_eq_refl c.label,
            n,
            k,
          ))

module _ (io : ByteIo) (laws : IsByteIo io) (r : OpenRequest) where
  open_request-length : 12 ≤ length (open_request io r).0
  unfolding open_request create_datachannel_open_request
  open_request-length =
      simp
        (
          length-append, laws.length-write_uint8, laws.length-write_uint16_be,
          laws.length-write_uint32_be,
        )
        (omega arith)

  open_request-kind : io.read_uint8 (open_request io r).0 ≡ 3
  unfolding open_request create_datachannel_open_request
  open_request-kind = laws.read-write_uint8 3 _

  -- An open request for a valid channel, on a stream whose entry the pad has made, is stored in the
  -- entry as it was sent, and the application is told of it.
  pub control_message-request :
      (stream : ℕ) (a : Agent) (info : ChannelInfo)
      → IsValid r
      → a.locked ≡ false
      → lookup stream a.data_channels ≡ some info
      → handle_data_channel_control_message io (open_request io r).0 stream a
        ≡ ok (
            schedule
              (data_channel_requested info.session_id r false info.id)
              (put_info stream (requested_info r info) a))
  unfolding handle_data_channel_control_message handle_data_channel_open_request accept_open_request
  control_message-request stream a info v u f =
      let msg = (open_request io r).0 in
      let filled : (length msg == 0) ≡ false = ground (arith, open_request-length) in
      let long : ltb (length msg) 12 ≡ false = ground (arith, open_request-length) in
      rw (filled, open_request-kind, long, u, parse-open_request io laws r v, f) refl
