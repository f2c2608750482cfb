-- ===== src/Media.antt =====
-- Media sessions, transport/owr_media_session.c, and the payloads that they send and receive,
-- transport/owr_payload.c. Objects are known by their addresses, closures by numbers; a text is the
-- list of its bytes, and NULL is `none`.
pub mod Payload
pub mod Receive
pub mod Send
use openwebrtc.Prelude.{
  ℕ, Bool, true, false, not, ◌||◌, Option, none, some, List, [], ◌∷◌, ◌++◌, length, ◌==◌,
  if◌then◌else◌,
}
use openwebrtc.Prelude.Int.{ℤ, pos, to_int32}
use openwebrtc.Outcome.{Outcome, ok, require, null_pointer, ◌>>=◌}

pub record MediaSession : Type 0 where
  pub rtcp_mux : Bool
  pub incoming_srtp_key : Option (List ℕ)
  pub outgoing_srtp_key : Option (List ℕ)
  pub send_ssrc : ℕ
  pub cname : Option (List ℕ)
  pub send_payload : Option ℕ
  pub send_source : Option ℕ
  pub receive_payloads : List ℕ
  pub on_send_payload : Option ℕ
  pub on_send_source : Option ℕ
  pub remote_sources : List ℕ
  pub jitter_buffer_latency : ℤ  -- gint

-- owr_media_session_init.
unfoldable pub init : MediaSession
init = record {
  rtcp_mux = false;
  incoming_srtp_key = none;
  outgoing_srtp_key = none;
  send_ssrc = 0;
  cname = none;
  send_payload = none;
  send_source = none;
  receive_payloads = [];
  on_send_payload = none;
  on_send_source = none;
  remote_sources = [];
  jitter_buffer_latency = pos 50;
}

-- A property of the class with the value that is set.
pub data Property : Type 0 where
  rtcp_mux : Bool → Property
  incoming_srtp_key outgoing_srtp_key cname : Option (List ℕ) → Property
  send_ssrc jitter_buffer_latency : ℕ → Property
  other : Property

-- Multiplexing is never switched off again. The length of the incoming key is only warned about,
-- but it is taken of the key also where that is NULL.
unfoldable pub set_property : MediaSession → Property → Outcome MediaSession
set_property s (Property.rtcp_mux b) =
    ok (if not s.rtcp_mux || b then record s { rtcp_mux = b } else s)
set_property s (Property.incoming_srtp_key k) =
    require k null_pointer >>= λ text. ok (record s { incoming_srtp_key = some text })
set_property s (Property.outgoing_srtp_key k) = ok (record s { outgoing_srtp_key = k })
set_property s (Property.send_ssrc n) = ok (record s { send_ssrc = n })
set_property s (Property.cname t) = ok (record s { cname = t })
set_property s (Property.jitter_buffer_latency n) =
    ok (record s { jitter_buffer_latency = to_int32 n })
set_property s Property.other = ok s

-- owr_media_session_on_incoming_source.
unfoldable pub on_incoming_source : ℕ → MediaSession → MediaSession
on_incoming_source source s = record s { remote_sources = s.remote_sources ++ source ∷ [] }

-- _owr_media_session_get_srtp_key_buffer for the text of a key: the bytes of the buffer. GLib's
-- decoding of base 64 is a parameter.
unfoldable pub get_srtp_key_buffer : (base64_decode : List ℕ → List ℕ) → Option (List ℕ) → List ℕ
get_srtp_key_buffer base64_decode none = 0 ∷ []
get_srtp_key_buffer base64_decode (some []) = 0 ∷ []
get_srtp_key_buffer base64_decode (some (b ∷ bs)) = base64_decode (b ∷ bs)
