-- ===== src/Tests/Sending.antt =====
-- Sessions whose payload or source is replaced.
use openwebrtc.Prelude.{◌≡◌, refl, true, false, none, some}
use openwebrtc.Outcome.{ok, fault, assertion}
use openwebrtc.Media.{MediaSession, init}
use openwebrtc.Media.Send.{set_send_payload, set_send_source}
use openwebrtc.Sending.{
  SendSide, Elements, differs, payload_set, source_set, on_dtls_enc_key_set, on_new_send_source,
  maybe_handle_new_send_source_with_payload, handle_both, handle_new_send_payload,
  handle_new_send_source, remove_existing_send_source_and_payload,
}
use openwebrtc.Sending.Replaced.{Works, side, settled, is_missing, with_session, set-settled}

abbrev all_video : Elements
all_video = record {
  payload_is_video = λ p. true;
  source_is_video = λ s. true;
  gives_element = λ s. true;
  links = λ s. true;
}

all_video-Works : Works all_video
all_video-Works = record {
  one_medium = λ p s. refl;
  elements_given = λ s. refl;
  links_made = λ s. refl;
}

abbrev sending : MediaSession
unfolding init
sending = record init { send_payload = some 1; send_source = some 2 }

abbrev started : SendSide
started = side sending false (some true) (some 2)

set-settled_example :
    (payload_set all_video (some 3) started
      ≡ settled all_video
          (is_missing started.session.send_payload (some 3) started.source_bin)
          (differs started.session.send_payload (some 3))
          (with_session ((set_send_payload (some 3) started.session).0) started))
    × (source_set all_video (some 3) started
        ≡ settled all_video
            (is_missing started.session.send_source (some 3) started.source_bin)
            (differs started.session.send_source (some 3))
            (with_session ((set_send_source (some 3) started.session).0) started))
unfolding sending
set-settled_example = set-settled all_video all_video-Works (some 3) started (refl, refl)

replaced_test :
    source_set all_video (some 3) started
    ≡ ok (side (record sending { send_source = some 3 }) false (some true) (some 3))
unfolding source_set on_new_send_source remove_existing_send_source_and_payload
    maybe_handle_new_send_source_with_payload handle_both handle_new_send_payload
    handle_new_send_source set_send_source sending
replaced_test = refl

-- A source is replaced before the DTLS key is known.
too_early_test : source_set all_video (some 3) (side sending true none none) ≡ fault assertion
unfolding source_set on_new_send_source remove_existing_send_source_and_payload set_send_source
    sending
too_early_test = refl

key_test : (on_dtls_enc_key_set (side sending true none none)).pending ≡ false
unfolding on_dtls_enc_key_set
key_test = refl
