-- ===== src/Sending/Replaced.antt =====
-- When the sending elements follow a new payload or source, and when the program stops,
-- transport/owr_transport_agent.c.
use openwebrtc.Prelude.{
  ℕ, ◌≡◌, refl, Bool, true, false, not, ◌&&◌, Option, none, some, ◌==◌, arith, inl, inr, Bool-cases,
}
use openwebrtc.Outcome.{Outcome, ok, fault, assertion}
use openwebrtc.Media.{MediaSession}
use openwebrtc.Media.Send.{set_send_payload, set_send_source}
use openwebrtc.Sending.{
  SendSide, Elements, same_medium, is_some, differs, handle_new_send_payload,
  handle_new_send_source, handle_both, maybe_handle_new_send_source_with_payload, pad_of,
  remove_existing_send_source_and_payload, on_new_send_payload, on_new_send_source, payload_set,
  source_set,
}

-- All payloads and sources are of one medium, and GStreamer does what it is asked.
pub record Works (e : Elements) : Type 0 where
  pub one_medium : (p s : ℕ) → same_medium (e.source_is_video s) (e.payload_is_video p) ≡ true
  pub elements_given : (s : ℕ) → e.gives_element s ≡ true
  pub links_made : (s : ℕ) → e.links s ≡ true

-- The elements of a payload and a source, or none.
abbrev pub Matches : Elements → Option ℕ → Option ℕ → Option Bool → Option ℕ → Type 0
Matches e payload source none none = Unit
Matches e (some p) (some s) (some is_video) (some linked) =
    (is_video ≡ e.payload_is_video p) × (linked ≡ s)
Matches e _ _ _ _ = ⊥

abbrev pub IsMatched : Elements → SendSide → Type 0
IsMatched e s = Matches e s.session.send_payload s.session.send_source s.send_input_bin s.source_bin

abbrev pub side : MediaSession → Bool → Option Bool → Option ℕ → SendSide
side session pending bin source = record {
  session = session;
  pending = pending;
  send_input_bin = bin;
  source_bin = source;
}

-- The elements that are to be taken down are not there.
abbrev pub is_missing : Option ℕ → Option ℕ → Option ℕ → Bool
is_missing old new source_bin = is_some old && (differs old new && not (is_some source_bin))

-- What the elements should be: those of the payload and the source, once the session is not pending.
abbrev pub made : Elements → Bool → Option ℕ → Option ℕ → Option Bool × Option ℕ
made e false (some p) (some s) = (some (e.payload_is_video p), some s)
made e _ _ _ = (none, none)

abbrev pub current : Elements → SendSide → SendSide
current e s =
    let m = made e s.pending s.session.send_payload s.session.send_source in
    record s { send_input_bin = m.0; source_bin = m.1 }

-- What a setter should leave, by whether elements are missing and whether another object was set.
abbrev pub settled : Elements → (missing other : Bool) → SendSide → Outcome SendSide
settled e true other s = fault assertion
settled e false true s = ok (current e s)
settled e false false s = ok s

-- The state with the session as a setter leaves it.
abbrev pub with_session : MediaSession → SendSide → SendSide
with_session session s = record s { session = session }

module _ (e : Elements) (w : Works e) where
  medium_of :
      (p a : ℕ) (v : Bool)
      → v ≡ e.payload_is_video p
      → pad_of (e.source_is_video a) (some v) ≡ some v
  medium_of p a v h = rw (h, w.one_medium p a) refl

  handles_pair :
      (session : MediaSession) (payload source : Option ℕ)
      → session.send_payload ≡ payload
      → session.send_source ≡ source
      → handle_both e payload source (side session false none none)
        ≡ ok (current e (side session false none none))
  unfolding handle_both handle_new_send_source handle_new_send_payload
  handles_pair session none source p q = rw (p, q) refl
  handles_pair session (some a) none p q = rw (p, q) refl
  handles_pair session (some a) (some b) p q =
      rw (p, q, w.one_medium a b, w.elements_given b, w.links_made b) refl

  made_no_source :
      (pending : Bool) (payload : Option ℕ) → made e pending payload none ≡ (none, none)
  made_no_source true payload = refl
  made_no_source false none = refl
  made_no_source false (some p) = refl

  made_no_payload : (pending : Bool) (source : Option ℕ) → made e pending none source ≡ (none, none)
  made_no_payload true source = refl
  made_no_payload false source = refl

  -- From no elements to those of the session's payload and source.
  handles :
      (session : MediaSession) (pending : Bool)
      → maybe_handle_new_send_source_with_payload e (side session pending none none)
        ≡ ok (current e (side session pending none none))
  unfolding maybe_handle_new_send_source_with_payload
  handles session true = refl
  handles session false = handles_pair session session.send_payload session.send_source refl refl

  same_object : (a : ℕ) (new : Option ℕ) → differs (some a) new ≡ false → new ≡ some a
  same_object a none h = absurd (ground arith)
  same_object a (some b) h = ground arith

  on_new_send_source-settled :
      (session : MediaSession) (pending : Bool) (bin : Option Bool) (bin_source : Option ℕ)
      → (payload old new : Option ℕ) → session.send_payload ≡ payload
      → session.send_source ≡ new
      → Matches e payload old bin bin_source
      → on_new_send_source e old new (side session pending bin bin_source)
        ≡ settled e
            (is_missing old new bin_source)
            (differs old new)
            (side session pending bin bin_source)
  unfolding on_new_send_source remove_existing_send_source_and_payload
  on_new_send_source-settled session pending none (some l) payload old new p q m = elim m [ ]
  on_new_send_source-settled session pending (some v) none none old new p q m = elim m [ ]
  on_new_send_source-settled session pending (some v) none (some b) none new p q m = elim m [ ]
  on_new_send_source-settled session pending (some v) none (some b) (some a) new p q m = elim m [ ]
  on_new_send_source-settled session pending (some v) (some l) none old new p q m = elim m [ ]
  on_new_send_source-settled session pending (some v) (some l) (some b) none new p q m = elim m [ ]
  on_new_send_source-settled session pending none none payload none none p q m = refl
  on_new_send_source-settled session pending none none payload none (some n) p q m =
      handles session pending
  on_new_send_source-settled session pending none none payload (some a) none p q m = refl
  on_new_send_source-settled session pending none none payload (some a) (some n) p q m =
      elim (Bool-cases (a == n)) [ inl h ↦ rw h refl | inr h ↦ rw h refl ]
  on_new_send_source-settled session pending (some v) (some l) (some b) (some a) none p q m =
      rw (medium_of b a v m.0, q, made_no_source pending session.send_payload) refl
  on_new_send_source-settled session pending (some v) (some l) (some b) (some a) (some n) p q m =
      elim (Bool-cases (a == n)) [
        | inl h ↦ rw h refl
        | inr h ↦ rw (h, medium_of b a v m.0) (handles session pending)
      ]

  on_new_send_payload-settled :
      (session : MediaSession) (pending : Bool) (bin : Option Bool) (bin_source : Option ℕ)
      → (old source new : Option ℕ) → session.send_source ≡ source
      → session.send_payload ≡ new
      → Matches e old source bin bin_source
      → on_new_send_payload e old new (side session pending bin bin_source)
        ≡ settled e
            (is_missing old new bin_source)
            (differs old new)
            (side session pending bin bin_source)
  unfolding on_new_send_payload remove_existing_send_source_and_payload
  on_new_send_payload-settled session pending none (some l) old source new p q m = elim m [ ]
  on_new_send_payload-settled session pending (some v) none none source new p q m = elim m [ ]
  on_new_send_payload-settled session pending (some v) none (some b) none new p q m = elim m [ ]
  on_new_send_payload-settled session pending (some v) none (some b) (some a) new p q m = elim m [ ]
  on_new_send_payload-settled session pending (some v) (some l) none source new p q m = elim m [ ]
  on_new_send_payload-settled session pending (some v) (some l) (some b) none new p q m = elim m [ ]
  on_new_send_payload-settled session pending none none none source none p q m = refl
  on_new_send_payload-settled session pending none none none source (some n) p q m =
      handles session pending
  on_new_send_payload-settled session pending none none (some b) none none p q m = rw p refl
  on_new_send_payload-settled session pending none none (some b) (some a) none p q m = rw p refl
  on_new_send_payload-settled session pending none none (some b) none (some n) p q m =
      elim (Bool-cases (b == n)) [ inl h ↦ rw h refl | inr h ↦ rw (h, p) refl ]
  on_new_send_payload-settled session pending none none (some b) (some a) (some n) p q m =
      elim (Bool-cases (b == n)) [ inl h ↦ rw h refl | inr h ↦ rw (h, p) refl ]
  on_new_send_payload-settled session pending (some v) (some l) (some b) (some a) none p q m =
      rw (p, medium_of b a v m.0, q, made_no_payload pending (some a)) refl
  on_new_send_payload-settled session pending (some v) (some l) (some b) (some a) (some n) p q m =
      elim (Bool-cases (b == n)) [
        | inl h ↦ rw h refl
        | inr h ↦
            rw (h, p, medium_of b a v m.0)
              (handles (record session { send_source = some a }) pending)
      ]

  -- GStreamer does what it is asked, all payloads and sources are of one medium, and the elements
  -- are those of the payload and the source, or none. A payload that is set then runs as follows,
  -- and a source likewise, NULL included. Where the same object is set again nothing changes, and
  -- where another is, the elements are then just those of the new payload and source, which are there
  -- when both are set and the DTLS key is known. Only where an object is replaced, or taken away,
  -- before there were elements for it, a g_assert fails.
  pub set-settled :
      (new : Option ℕ) (s : SendSide)
      → IsMatched e s
      → (payload_set e new s
          ≡ settled e
              (is_missing s.session.send_payload new s.source_bin)
              (differs s.session.send_payload new)
              (with_session ((set_send_payload new s.session).0) s))
        × (source_set e new s
            ≡ settled e
                (is_missing s.session.send_source new s.source_bin)
                (differs s.session.send_source new)
                (with_session ((set_send_source new s.session).0) s))
  unfolding payload_set source_set set_send_payload set_send_source
  set-settled new s m = (
    on_new_send_payload-settled _ s.pending s.send_input_bin s.source_bin s.session.send_payload
        s.session.send_source new refl refl m,
    on_new_send_source-settled _ s.pending s.send_input_bin s.source_bin s.session.send_payload
        s.session.send_source new refl refl m,
  )
