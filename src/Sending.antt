-- ===== src/Sending.antt =====
-- The sending side of a media session in the transport agent, transport/owr_transport_agent.c: when
-- the elements for the payload and the source are made and taken down. Of the elements the state
-- has whether the bin for the payload is there, with a pad whose name has the medium, and the source
-- that is linked to the pad. What GStreamer and the sources answer is a parameter.
pub mod Replaced
use openwebrtc.Prelude.{
  ℕ, Bool, true, false, not, ◌&&◌, Option, none, some, List, [], ◌∷◌, ◌==◌, if◌then◌else◌,
}
use openwebrtc.Outcome.{Outcome, ok, assertion, require, check, ◌>>=◌, ◌>>◌}
use openwebrtc.Media.{MediaSession}
use openwebrtc.Media.Send.{set_send_payload, set_send_source}

pub record SendSide : Type 0 where
  pub session : MediaSession
  pub pending : Bool  -- the session is in pending_sessions
  pub send_input_bin : Option Bool  -- whether the pad is for video
  pub source_bin : Option ℕ  -- the source at the pad

pub record Elements : Type 0 where
  pub payload_is_video : ℕ → Bool
  pub source_is_video : ℕ → Bool
  pub gives_element : ℕ → Bool  -- _owr_media_source_request_source
  pub links : ℕ → Bool  -- link_source_to_transport_bin

abbrev pub same_medium : Bool → Bool → Bool
same_medium true true = true
same_medium false false = true
same_medium _ _ = false

abbrev pub is_some {ℓ} : {A : Type ℓ} → Option A → Bool
is_some none = false
is_some (some x) = true

abbrev pub differs : Option ℕ → Option ℕ → Bool
differs (some a) (some b) = not (a == b)
differs none none = false
differs _ _ = true

-- The pad of the medium, if the bin has it.
abbrev pub pad_of : Bool → Option Bool → Option Bool
pad_of is_video none = none
pad_of is_video (some for_video) = if same_medium is_video for_video then some for_video else none

module _ (e : Elements) where
  open e use {payload_is_video, source_is_video, gives_element, links}

  -- With a bin of the name there already, GStreamer does not add another, and the code returns.
  unfoldable pub handle_new_send_payload : ℕ → SendSide → SendSide
  handle_new_send_payload payload s =
      if is_some s.send_input_bin
      then s
      else record s { send_input_bin = some (payload_is_video payload) }

  -- A source of another medium is only reported, and so is a link that fails, as it does where
  -- there is no pad of the medium, or where it is linked.
  unfoldable pub handle_new_send_source : ℕ → ℕ → SendSide → Outcome SendSide
  handle_new_send_source source payload s =
      if same_medium (source_is_video source) (payload_is_video payload)
      then check (gives_element source) assertion
        >> ok (
            if links source && not (is_some s.source_bin)
            then record s { source_bin = some source }
            else s)
      else ok s

  unfoldable pub handle_both : Option ℕ → Option ℕ → SendSide → Outcome SendSide
  handle_both (some payload) (some source) s =
      handle_new_send_source source payload (handle_new_send_payload payload s)
  handle_both _ _ s = ok s

  unfoldable pub maybe_handle_new_send_source_with_payload : SendSide → Outcome SendSide
  maybe_handle_new_send_source_with_payload s =
      if s.pending then ok s else handle_both s.session.send_payload s.session.send_source s

  unfoldable pub remove_existing_send_source_and_payload : Option ℕ → SendSide → Outcome SendSide
  remove_existing_send_source_and_payload source s = require source assertion >>= λ media_source.
      require (pad_of (source_is_video media_source) s.send_input_bin) assertion >>= λ sinkpad.
      require s.source_bin assertion >>= λ bin_src_pad.
      ok (record s { send_input_bin = none; source_bin = none })

  unfoldable pub on_new_send_payload : Option ℕ → Option ℕ → SendSide → Outcome SendSide
  on_new_send_payload old new s =
      (if is_some old && differs old new
        then remove_existing_send_source_and_payload s.session.send_source s
        else ok s)
      >>= λ s'.
          if is_some new && differs old new
          then maybe_handle_new_send_source_with_payload s'
          else ok s'

  unfoldable pub on_new_send_source : Option ℕ → Option ℕ → SendSide → Outcome SendSide
  on_new_send_source old new s =
      (if is_some old && differs old new
        then remove_existing_send_source_and_payload old s
        else ok s)
      >>= λ s'.
          if is_some new && differs old new
          then maybe_handle_new_send_source_with_payload s'
          else ok s'

  -- What the application does, with the closures that add_session has set, and the DTLS key.
  unfoldable pub payload_set : Option ℕ → SendSide → Outcome SendSide
  payload_set new s =
      on_new_send_payload s.session.send_payload new
        (record s { session = (set_send_payload new s.session).0 })

  unfoldable pub source_set : Option ℕ → SendSide → Outcome SendSide
  source_set new s =
      on_new_send_source s.session.send_source new
        (record s { session = (set_send_source new s.session).0 })

-- on_dtls_enc_key_set for the RTP component; it also schedules
-- maybe_handle_new_send_source_with_payload on the main thread.
unfoldable pub on_dtls_enc_key_set : SendSide → SendSide
on_dtls_enc_key_set s = record s { pending = false }
