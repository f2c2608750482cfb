-- ===== src/Security/Keys.antt =====
-- That the elements of a media session keep its packets secret, transport/owr_transport_agent.c.
use openwebrtc.Prelude.{
  ℕ, ◌≡◌, refl, Bool, true, false, Option, none, some, List, [], ◌∷◌, length, ltb, arith, inl, inr,
  Bool-cases,
}
use openwebrtc.Outcome.{Outcome, ok, ◌>>=◌}
use openwebrtc.Media as Media
use openwebrtc.Media.{MediaSession, get_srtp_key_buffer}
use openwebrtc.Session as Session
use openwebrtc.Session.{OwrSession, dtls_text, auto}
use openwebrtc.Security.{
  Srtp, negotiated, null, keyed, DtlsSrtpBin, Secured, map_bin, same_text, take_certificate,
  set_srtp_key, notify_outgoing, notify_incoming, maybe_disable_dtls, add_decoder, add_encoder,
  set_certificate, set_outgoing_key, set_incoming_key,
}

abbrev pub is_given : Option (List ℕ) → Bool
is_given none = false
is_given (some text) = true

abbrev pub is_null : Srtp → Bool
is_null null = true
is_null _ = false

-- With a key the packets are encrypted by it, and without one DTLS or an earlier key is used.
abbrev pub Encrypts : Bool → List ℕ → Srtp → Type 0
Encrypts true buffer p = p ≡ keyed buffer
Encrypts false buffer p = is_null p ≡ false

pub data Event : Type 0 where
  decoder_added : (generated : List ℕ) → Event
  encoder_added : Event
  certificate_set outgoing_key_set incoming_key_set : Option (List ℕ) → Event

-- DTLS is never switched off, and the incoming key is never NULL.
abbrev pub Allowed : Event → Type 0
Allowed (decoder_added generated) = is_given (dtls_text (some generated)) ≡ true
Allowed encoder_added = Unit
Allowed (certificate_set text) = is_given (dtls_text text) ≡ true
Allowed (outgoing_key_set key) = Unit
Allowed (incoming_key_set key) = is_given key ≡ true

abbrev pub AllAllowed : List Event → Type 0
AllAllowed [] = Unit
AllAllowed (e ∷ es) = Allowed e × AllAllowed es

module _ (base64_decode : List ℕ → List ℕ) where
  abbrev pub has_key : Option (List ℕ) → Bool
  has_key key = ltb 1 (length (get_srtp_key_buffer base64_decode key))

  abbrev pub BinEncrypts : Option (List ℕ) → Option DtlsSrtpBin → Type 0
  BinEncrypts key none = Unit
  BinEncrypts key (some bin) =
      Encrypts (has_key key) (get_srtp_key_buffer base64_decode key) bin.srtp

  -- The session has a certificate, and neither element that is there has the null ciphers: it has the
  -- present key, or DTLS or an earlier key if there is none.
  pub record IsSecret (s : Secured) : Type 0 where
    pub certified : is_given s.session.dtls_certificate ≡ true
    pub encoder_encrypts : BinEncrypts s.media.outgoing_srtp_key s.encoder
    pub decoder_encrypts : BinEncrypts s.media.incoming_srtp_key s.decoder

  not_null : (has : Bool) (buffer : List ℕ) (p : Srtp) → Encrypts has buffer p → is_null p ≡ false
  not_null true buffer p h = rw h refl
  not_null false buffer p h = h

  Encrypts-set :
      (key certificate : Option (List ℕ)) (p : Srtp)
      → is_given certificate ≡ true
      → is_null p ≡ false
      → Encrypts
          (has_key key)
          (get_srtp_key_buffer base64_decode key)
          (set_srtp_key base64_decode key certificate p)
  unfolding set_srtp_key
  Encrypts-set key none p c h = absurd (ground arith)
  Encrypts-set key (some cert) p c h = elim (Bool-cases (has_key key)) [
    | inl k ↦ rw k refl
    | inr k ↦ rw k h
  ]

  bin-set :
      (old key certificate : Option (List ℕ)) (bin : Option DtlsSrtpBin)
      → is_given certificate ≡ true
      → BinEncrypts old bin
      → BinEncrypts key (map_bin (set_srtp_key base64_decode key certificate) bin)
  bin-set old key certificate none c h = tt
  bin-set old key certificate (some bin) c h =
      Encrypts-set key certificate bin.srtp c
        (not_null (has_key old) (get_srtp_key_buffer base64_decode old) bin.srtp h)

  -- The handlers of the certificate, from elements that do not have the null ciphers.
  IsSecret-disable :
      (s : Secured) (old_out old_in : Option (List ℕ))
      → is_given s.session.dtls_certificate ≡ true
      → BinEncrypts old_out s.encoder
      → BinEncrypts old_in s.decoder
      → IsSecret (maybe_disable_dtls base64_decode s)
  unfolding maybe_disable_dtls notify_outgoing notify_incoming
  IsSecret-disable s old_out old_in c e d = record {
    certified = c;
    encoder_encrypts =
        bin-set old_out s.media.outgoing_srtp_key s.session.dtls_certificate s.encoder c e;
    decoder_encrypts =
        bin-set old_in s.media.incoming_srtp_key s.session.dtls_certificate s.decoder c d;
  }

  certified-taken :
      (generated : List ℕ) (s : OwrSession) (cert : Option (List ℕ))
      → s.dtls_certificate ≡ cert
      → is_given cert ≡ true
      → is_given (dtls_text (some generated)) ≡ true
      → is_given ((take_certificate generated s cert).0).dtls_certificate ≡ true
  unfolding take_certificate Session.set_property
  certified-taken generated s none e c g = absurd (ground arith)
  certified-taken generated s (some cert) e c g = elim (Bool-cases (same_text cert auto)) [
    | inl h ↦ rw h g
    | inr h ↦ rw (h, e) refl
  ]

  fresh :
      (pem : Option (List ℕ)) (is_client : Bool)
      → BinEncrypts none (some (record { srtp = negotiated; pem = pem; is_client = is_client }))
  unfolding get_srtp_key_buffer
  fresh pem is_client = refl

  unfoldable pub step : Secured → Event → Outcome Secured
  step s (decoder_added generated) = ok (add_decoder base64_decode generated s)
  step s encoder_added = ok (add_encoder base64_decode s)
  step s (certificate_set text) = ok (set_certificate base64_decode text s)
  step s (outgoing_key_set key) = set_outgoing_key base64_decode key s
  step s (incoming_key_set key) = set_incoming_key base64_decode key s

  unfoldable pub run : Secured → List Event → Outcome Secured
  run s [] = ok s
  run s (e ∷ es) = step s e >>= λ s'. run s' es

  IsSecret-step :
      (s : Secured) (e : Event)
      → Allowed e
      → IsSecret s
      → (s' : Secured) × (step s e ≡ ok s') × IsSecret s'
  unfolding step add_decoder add_encoder set_certificate set_outgoing_key set_incoming_key
      Session.set_property Media.set_property notify_outgoing notify_incoming
  IsSecret-step s (decoder_added generated) g v = (
    _,
    refl,
    IsSecret-disable _ s.media.outgoing_srtp_key none
        (certified-taken generated s.session s.session.dtls_certificate refl v.certified g)
        v.encoder_encrypts
        (fresh ((take_certificate generated s.session s.session.dtls_certificate).1) false),
  )
  IsSecret-step s encoder_added g v = (
    _,
    refl,
    IsSecret-disable _ none s.media.incoming_srtp_key v.certified
        (fresh none s.session.dtls_client_mode) v.decoder_encrypts,
  )
  IsSecret-step s (certificate_set text) g v = (
    _,
    refl,
    IsSecret-disable _ s.media.outgoing_srtp_key s.media.incoming_srtp_key g v.encoder_encrypts
        v.decoder_encrypts,
  )
  IsSecret-step s (outgoing_key_set key) g v = (
    _,
    refl,
    record {
      certified = v.certified;
      encoder_encrypts =
          bin-set s.media.outgoing_srtp_key key s.session.dtls_certificate s.encoder v.certified
            v.encoder_encrypts;
      decoder_encrypts = v.decoder_encrypts;
    },
  )
  IsSecret-step s (incoming_key_set none) g v = absurd (ground arith)
  IsSecret-step s (incoming_key_set (some text)) g v = (
    _,
    refl,
    record {
      certified = v.certified;
      encoder_encrypts = v.encoder_encrypts;
      decoder_encrypts =
          bin-set s.media.incoming_srtp_key (some text) s.session.dtls_certificate s.decoder
            v.certified v.decoder_encrypts;
    },
  )

  -- As long as the application never switches DTLS off by an empty certificate or one that says
  -- "null", and never sets the incoming key to NULL, then from a state in which this holds, whatever
  -- the order in which elements are added and keys and certificates are set: no fault occurs, no
  -- element has the null ciphers, and one for which there is an SRTP key encrypts with just that key.
  pub run-IsSecret :
      (es : List Event) (s : Secured)
      → AllAllowed es
      → IsSecret s
      → (s' : Secured) × (run s es ≡ ok s') × IsSecret s'
  unfolding run
  run-IsSecret [] s a v = (s, refl, v)
  run-IsSecret (e ∷ es) s a v =
      let (s', p, v') = IsSecret-step s e a.0 v in
      let (s'', q, v'') = run-IsSecret es s' a.1 v' in (s'', rw p q, v'')
