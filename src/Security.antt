-- ===== src/Security.antt =====
-- The protection of the packets of a media session, transport/owr_transport_agent.c: the DTLS-SRTP
-- elements of one component, and how keys and the certificate set them. A certificate that an
-- element generates and the decoding of base 64 are parameters. The handlers of the property
-- dtls-certificate, one for each element, do the same, and are one here.
pub mod Keys
use openwebrtc.Prelude.{
  ℕ, Bool, true, false, Option, none, some, List, [], ◌∷◌, ◌++◌, length, ltb, ◌==◌, ◌&&◌,
  if◌then◌else◌,
}
use openwebrtc.Outcome.{Outcome, ok, ◌>>=◌}
use openwebrtc.Media as Media
use openwebrtc.Media.{MediaSession, get_srtp_key_buffer}
use openwebrtc.Session as Session
use openwebrtc.Session.{OwrSession, auto}

-- The ciphers and the key of an element: as DTLS negotiates them, none, or the fixed ones with a key.
pub data Srtp : Type 0 where
  negotiated : Srtp
  null : Srtp
  keyed : List ℕ → Srtp

pub record DtlsSrtpBin : Type 0 where
  pub srtp : Srtp
  pub pem : Option (List ℕ)
  pub is_client : Bool

-- A media session in both of its parts, and the elements that have been added.
pub record Secured : Type 0 where
  pub session : OwrSession
  pub media : MediaSession
  pub encoder : Option DtlsSrtpBin
  pub decoder : Option DtlsSrtpBin

abbrev pub map_bin : (Srtp → Srtp) → Option DtlsSrtpBin → Option DtlsSrtpBin
map_bin f none = none
map_bin f (some bin) = some (record bin { srtp = f bin.srtp })

abbrev pub without_key : Option (List ℕ) → Srtp → Srtp
without_key none p = null
without_key (some certificate) p = p

abbrev pub same_text : List ℕ → List ℕ → Bool
same_text [] [] = true
same_text (a ∷ more) (b ∷ bs) = let rest = same_text more bs in a == b && rest
same_text _ _ = false

-- The text that is set as "pem" when the certificate is not "(auto)".
abbrev pub cert_key : Option (List ℕ) → Option (List ℕ) → Option (List ℕ)
cert_key (some cert) (some key) = some (cert ++ key)
cert_key _ _ = none

-- What becomes of a new element's certificate and of the session's texts.
unfoldable pub take_certificate :
    (generated : List ℕ) → OwrSession → Option (List ℕ) → OwrSession × Option (List ℕ)
take_certificate generated s none = (s, cert_key none s.dtls_key)
take_certificate generated s (some cert) =
    if same_text cert auto
    then (
      Session.set_property
          (Session.set_property s (Session.Property.dtls_certificate (some generated)))
          (Session.Property.dtls_key none),
      some generated,
    )
    else (s, cert_key (some cert) s.dtls_key)

module _ (base64_decode : List ℕ → List ℕ) where
  unfoldable pub set_srtp_key : (key certificate : Option (List ℕ)) → Srtp → Srtp
  set_srtp_key key certificate p =
      let buffer = get_srtp_key_buffer base64_decode key in
      if ltb 1 (length buffer) then keyed buffer else without_key certificate p

  -- notify::outgoing-srtp-key and notify::incoming-srtp-key.
  unfoldable pub notify_outgoing : Secured → Secured
  notify_outgoing s = record s {
    encoder = map_bin (set_srtp_key s.media.outgoing_srtp_key s.session.dtls_certificate) s.encoder;
  }

  unfoldable pub notify_incoming : Secured → Secured
  notify_incoming s = record s {
    decoder = map_bin (set_srtp_key s.media.incoming_srtp_key s.session.dtls_certificate) s.decoder;
  }

  unfoldable pub maybe_disable_dtls : Secured → Secured
  maybe_disable_dtls s = notify_incoming (notify_outgoing s)

  unfoldable pub add_decoder : (generated : List ℕ) → Secured → Secured
  add_decoder generated s =
      let taken = take_certificate generated s.session s.session.dtls_certificate in
      maybe_disable_dtls (record s {
        session = taken.0;
        decoder = some (record { srtp = negotiated; pem = taken.1; is_client = false });
      })

  unfoldable pub add_encoder : Secured → Secured
  add_encoder s = maybe_disable_dtls (record s {
    encoder =
        some (record { srtp = negotiated; pem = none; is_client = s.session.dtls_client_mode });
  })

  -- What the application sets, and the handlers of the property.
  unfoldable pub set_certificate : Option (List ℕ) → Secured → Secured
  set_certificate text s = maybe_disable_dtls (record s {
    session = Session.set_property s.session (Session.Property.dtls_certificate text);
  })

  unfoldable pub set_outgoing_key : Option (List ℕ) → Secured → Outcome Secured
  set_outgoing_key key s =
      Media.set_property s.media (Media.Property.outgoing_srtp_key key) >>= λ media.
      ok (notify_outgoing (record s { media = media }))

  unfoldable pub set_incoming_key : Option (List ℕ) → Secured → Outcome Secured
  set_incoming_key key s =
      Media.set_property s.media (Media.Property.incoming_srtp_key key) >>= λ media.
      ok (notify_incoming (record s { media = media }))

-- on_dtls_peer_certificate; the handler is called once, and disconnects itself.
unfoldable pub on_dtls_peer_certificate :
    Option (List ℕ) → OwrSession → OwrSession × List Session.Call
on_dtls_peer_certificate certificate s = Session.set_dtls_peer_certificate certificate s

-- on_rtcp_mux_changed: the number of the pad that RTCP leaves by.
unfoldable pub on_rtcp_mux_changed : MediaSession → ℕ
on_rtcp_mux_changed m = if m.rtcp_mux then 0 else 1
