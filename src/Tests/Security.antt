-- ===== src/Tests/Security.antt =====
-- The elements of a session whose key is set, and of one that switches DTLS off and on again.
use openwebrtc.Prelude.{ℕ, ◌≡◌, refl, false, none, some, List, [], ◌∷◌}
use openwebrtc.Outcome.{ok}
use openwebrtc.Media as Media
use openwebrtc.Media.{MediaSession, get_srtp_key_buffer}
use openwebrtc.Session as Session
use openwebrtc.Security.{
  null, Secured, set_srtp_key, notify_outgoing, notify_incoming, maybe_disable_dtls, add_encoder,
  set_certificate, on_rtcp_mux_changed,
}
use openwebrtc.Security.Keys.{
  Event, decoder_added, encoder_added, certificate_set, outgoing_key_set, incoming_key_set,
  IsSecret, run, run-IsSecret,
}

abbrev bare : List ℕ → List ℕ
bare text = text

unfoldable start : Secured
unfolding Session.init Media.init
start = record { session = Session.init; media = Media.init; encoder = none; decoder = none }

start-IsSecret : IsSecret bare start
unfolding start
start-IsSecret = record { certified = refl; encoder_encrypts = tt; decoder_encrypts = tt }

abbrev own : List ℕ
own = b'-' ∷ b'-' ∷ []

abbrev events : List Event
events =
    decoder_added own
    ∷ encoder_added
    ∷ outgoing_key_set (some own)
    ∷ certificate_set (some own)
    ∷ incoming_key_set (some own)
    ∷ []

run-IsSecret_example : (s' : Secured) × (run bare start events ≡ ok s') × IsSecret bare s'
unfolding Session.dtls_text
run-IsSecret_example =
    run-IsSecret bare events start (refl, (tt, (tt, (refl, (refl, tt))))) start-IsSecret

-- What the encoder has after a certificate was taken away, and another was set.
abbrev off_and_on : Secured
off_and_on = set_certificate bare (some own) (set_certificate bare none (add_encoder bare start))

off_test : off_and_on.encoder ≡ some (record { srtp = null; pem = none; is_client = false })
unfolding start set_certificate add_encoder maybe_disable_dtls notify_outgoing notify_incoming
    set_srtp_key get_srtp_key_buffer Session.set_property Session.dtls_text
off_test = refl

pad_test : on_rtcp_mux_changed Media.init ≡ 1
unfolding Media.init on_rtcp_mux_changed
pad_test = refl
