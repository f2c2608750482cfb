-- ===== src/Media/Payload.antt =====
-- Payloads, transport/owr_payload.c: the object, its properties and the caps of its RTP packets.
use openwebrtc.Prelude.{ℕ, Bool, leb, if◌then◌else◌}
use openwebrtc.Prelude.Int.{ℤ, pos, minus_one, eqb_ℤ}

pub data CodecType : Type 0 where
  none_codec pcmu pcma opus h264 vp8 : CodecType

pub data MediaType : Type 0 where
  unknown audio video : MediaType

pub data AdaptationType : Type 0 where
  disabled scream : AdaptationType

-- What the subclasses OwrAudioPayload and OwrVideoPayload add, as far as the caps read it.
pub data Subclass : Type 0 where
  plain_payload : MediaType → Subclass
  audio_payload : (channels : ℕ) → Subclass
  video_payload : (ccm_fir nack_pli : Bool) → (width height : ℕ) → Subclass

pub record Payload : Type 0 where
  pub codec_type : CodecType
  pub payload_type : ℕ
  pub clock_rate : ℕ
  pub mtu : ℕ
  pub bitrate : ℕ
  pub rtx_payload_type : ℤ
  pub rtx_time : ℕ
  pub adaptation : AdaptationType
  pub subclass : Subclass

-- A property of the class with the value that is set.
pub data Property : Type 0 where
  codec_type : CodecType → Property
  payload_type clock_rate mtu bitrate rtx_time : ℕ → Property
  rtx_payload_type : ℤ → Property
  adaptation : AdaptationType → Property
  other : Property

-- pt == -1 || pt >= 96.
abbrev pub is_rtx_type : ℤ → Bool
is_rtx_type (pos n) = leb 96 n
is_rtx_type z = eqb_ℤ z minus_one

unfoldable pub set_property : Payload → Property → Payload
set_property p (Property.codec_type t) = record p { codec_type = t }
set_property p (Property.payload_type n) = record p { payload_type = n }
set_property p (Property.clock_rate n) = record p { clock_rate = n }
set_property p (Property.mtu n) = record p { mtu = n }
set_property p (Property.bitrate n) = record p { bitrate = n }
set_property p (Property.rtx_payload_type z) =
    if is_rtx_type z then record p { rtx_payload_type = z } else p
set_property p (Property.rtx_time n) = record p { rtx_time = n }
set_property p (Property.adaptation t) = record p { adaptation = t }
set_property p Property.other = p
