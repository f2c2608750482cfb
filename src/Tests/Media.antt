-- ===== src/Tests/Media.antt =====
-- A media session with two payloads, one of which has retransmissions.
use openwebrtc.Prelude.{
  ℕ, ◌+◌, ◌≡◌, ◌≢◌, ◌↔◌, refl, true, false, none, some, [], ◌∷◌, ◌==◌, if◌then◌else◌, insert,
}
use openwebrtc.Prelude.Int.{pos, minus_one, to_uint32, nonneg}
use openwebrtc.Outcome.{fault, null_pointer}
use openwebrtc.Media.{MediaSession, init, Property, set_property, get_srtp_key_buffer}
use openwebrtc.Media.Payload.{Payload, CodecType, AdaptationType, Subclass}
use openwebrtc.Media.Receive.{
  payload_found, add_receive_payload, rtx_uint, get_receive_payload, look_for, want_receive_rtx,
  get_receive_rtx_pt_map, pt_map_from,
}
use openwebrtc.Media.Receive.Lookup.{type_of, IsTyped, add_all, get_receive_payload-added}
use openwebrtc.Media.Receive.Retransmission.{field, want_receive_rtx-pt_map}
use openwebrtc.Media.Send.{set_send_payload, set_send_source}
use openwebrtc.Media.Send.References.{refs, unrefs, held, held_if_called, set_send-leaks}
use openwebrtc.Session.Remote.{member}

abbrev vp8_payload : Payload
vp8_payload = record {
  codec_type = CodecType.vp8;
  payload_type = 100;
  clock_rate = 90000;
  mtu = 1200;
  bitrate = 0;
  rtx_payload_type = pos 120;
  rtx_time = 200;
  adaptation = AdaptationType.scream;
  subclass = Subclass.video_payload true true 640 480;
}

abbrev h264_payload : Payload
h264_payload = record vp8_payload {
  codec_type = CodecType.h264;
  payload_type = 103;
  rtx_payload_type = minus_one;
}

abbrev objects : ℕ → Payload
objects p = if p == 1 then vp8_payload else h264_payload

-- The third payload is another object of the type of the second.
abbrev filled : MediaSession
filled = add_all objects (1 ∷ 2 ∷ 3 ∷ []) init

filled_test :
    (filled.receive_payloads ≡ 1 ∷ 2 ∷ [])
    × (get_receive_payload objects 120 filled ≡ some 1)
    × (get_receive_payload objects 0 init ≡ none)
unfolding add_receive_payload payload_found get_receive_payload look_for init to_uint32
filled_test = (refl, refl, refl)

init-IsTyped : IsTyped objects init.receive_payloads
unfolding init
init-IsTyped = tt

get_receive_payload-added_example :
    IsTyped objects filled.receive_payloads
    × ((p : ℕ)
        → member p (1 ∷ 2 ∷ 3 ∷ []) ≡ true
        → payload_found objects p filled.receive_payloads ≡ true)
    × ((p : ℕ)
        → member p filled.receive_payloads ≡ true
        → ((q : ℕ)
            → member q filled.receive_payloads ≡ true
            → (rtx_uint objects q == type_of objects p) ≡ false)
        → get_receive_payload objects (type_of objects p) filled ≡ some p)
get_receive_payload-added_example =
    get_receive_payload-added objects (1 ∷ 2 ∷ 3 ∷ []) init init-IsTyped

abbrev two_payloads : MediaSession
two_payloads = record init { receive_payloads = 1 ∷ 2 ∷ [] }

two-IsTyped : IsTyped objects two_payloads.receive_payloads
unfolding payload_found
two-IsTyped = (refl, (refl, tt))

want_receive_rtx-pt_map_test :
    ((want_receive_rtx objects two_payloads ≡ true)
      ↔ (get_receive_rtx_pt_map objects two_payloads ≢ none))
    × ((p : ℕ)
        → member p two_payloads.receive_payloads ≡ true
        → field (type_of objects p) (get_receive_rtx_pt_map objects two_payloads)
          ≡ (if nonneg (objects p).rtx_payload_type then some (rtx_uint objects p) else none))
want_receive_rtx-pt_map_test = want_receive_rtx-pt_map objects two_payloads two-IsTyped

pt_map_test : get_receive_rtx_pt_map objects two_payloads ≡ some ((100, 120) ∷ [])
unfolding get_receive_rtx_pt_map pt_map_from insert to_uint32
pt_map_test = refl

abbrev sending : MediaSession
sending = record init { send_payload = some 1; send_source = some 50; on_send_payload = some 9 }

set_send-leaks_test :
    (let r = set_send_payload (some 2) sending in
      held 1 sending.send_payload + held 1 (some 2) + refs 1 r.1
      ≡ held 1 (r.0).send_payload
        + unrefs 1 r.1
        + (held 1 sending.send_payload + held_if_called 1 sending.on_send_payload (some 2)))
    × (let r = set_send_source (some 2) sending in
        held 1 sending.send_source + held 1 (some 2) + refs 1 r.1
        ≡ held 1 (r.0).send_source + unrefs 1 r.1 + held 1 sending.send_source)
set_send-leaks_test = set_send-leaks 1 (some 2) sending

-- An incoming key of NULL is read through.
key_test :
    (set_property init (Property.incoming_srtp_key none) ≡ fault null_pointer)
    × (get_srtp_key_buffer (λ t. t) (some []) ≡ 0 ∷ [])
unfolding set_property get_srtp_key_buffer
key_test = (refl, refl)
