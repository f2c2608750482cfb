-- ===== src/Media/Send/References.antt =====
-- The references to what a media session sends, transport/owr_media_session.c: those that are there
-- before a setter runs, against those that are accounted for after it.
use openwebrtc.Prelude.{
  ℕ, ◌+◌, ◌≡◌, Option, none, some, List, [], ◌∷◌, ◌++◌, ◌==◌, if◌then◌else◌, arith,
}
use openwebrtc.Media.{MediaSession}
use openwebrtc.Media.Send.{
  Effect, object_ref, object_unref, ref, unref, call_on_send_payload, set_send_payload,
  call_on_send_source, set_send_source,
}

abbrev pub refs : ℕ → List Effect → ℕ
refs k [] = 0
refs k (object_ref o ∷ es) = (if o == k then 1 else 0) + refs k es
refs k (e ∷ es) = refs k es

abbrev pub unrefs : ℕ → List Effect → ℕ
unrefs k [] = 0
unrefs k (object_unref o ∷ es) = (if o == k then 1 else 0) + unrefs k es
unrefs k (e ∷ es) = unrefs k es

-- The references to k that a pointer holds.
abbrev pub held : ℕ → Option ℕ → ℕ
held k none = 0
held k (some o) = if o == k then 1 else 0

abbrev pub held_if_called : ℕ → Option ℕ → Option ℕ → ℕ
held_if_called k none new = 0
held_if_called k (some f) new = held k new

payload_balance :
    (k : ℕ) (closure old new : Option ℕ)
    → let effects = ref old ++ unref old ++ call_on_send_payload closure old new in
      held k old + held k new + refs k effects
      ≡ held k new + unrefs k effects + (held k old + held_if_called k closure new)
payload_balance k none none none = omega arith
payload_balance k none none (some n) = omega arith
payload_balance k none (some o) none = omega arith
payload_balance k none (some o) (some n) = omega arith
payload_balance k (some f) none none = omega arith
payload_balance k (some f) none (some n) = omega arith
payload_balance k (some f) (some o) none = omega arith
payload_balance k (some f) (some o) (some n) = omega arith

source_balance :
    (k : ℕ) (closure old new : Option ℕ)
    → let effects = ref old ++ unref old ++ call_on_send_source closure old new in
      held k old + held k new + refs k effects ≡ held k new + unrefs k effects + held k old
source_balance k none none none = omega arith
source_balance k none none (some n) = omega arith
source_balance k none (some o) none = omega arith
source_balance k none (some o) (some n) = omega arith
source_balance k (some f) none none = omega arith
source_balance k (some f) none (some n) = omega arith
source_balance k (some f) (some o) none = omega arith
source_balance k (some f) (some o) (some n) = omega arith

-- The setters leak. Of the references that the session and the caller hold before, and that the
-- setter takes, those that the session holds afterwards and that the setter gives back leave one to
-- the old payload, and one to the new payload if there is a closure to call; a new source leaves
-- just one to the old source.
pub set_send-leaks :
    (k : ℕ) (new : Option ℕ) (s : MediaSession)
    → (let r = set_send_payload new s in
        held k s.send_payload + held k new + refs k r.1
        ≡ held k (r.0).send_payload
          + unrefs k r.1
          + (held k s.send_payload + held_if_called k s.on_send_payload new))
      × (let r = set_send_source new s in
          held k s.send_source + held k new + refs k r.1
          ≡ held k (r.0).send_source + unrefs k r.1 + held k s.send_source)
unfolding set_send_payload set_send_source
set_send-leaks k new s = (
  payload_balance k s.on_send_payload s.send_payload new,
  source_balance k s.on_send_source s.send_source new,
)
