-- ===== src/Session/Aggregate.antt =====
-- The ICE state of a session from those of its components, transport/owr_session.c.
use openwebrtc.Prelude.{
  ℕ, ◌≡◌, refl, ap, sym, ◌∙◌, Bool, true, false, ◌||◌, List, [], ◌∷◌, ◌++◌, map, ◌==◌, ltb,
  if◌then◌else◌, arith, inl, inr, Bool-cases,
}
use openwebrtc.Session.{IceState, OwrSession, Call, notify_ice_state, component_rtp}

-- The number of a state in the enumeration.
abbrev pub rank : IceState → ℕ
rank IceState.disconnected = 0
rank IceState.gathering = 1
rank IceState.connecting = 2
rank IceState.connected = 3
rank IceState.ready = 4
rank IceState.failed = 5

abbrev pub same_state : IceState → IceState → Bool
same_state a b = rank a == rank b

unfoldable pub aggregate_ice_state : IceState → IceState → IceState
aggregate_ice_state rtp_state rtcp_state =
    if same_state rtp_state IceState.failed || same_state rtcp_state IceState.failed
    then IceState.failed
    else (if ltb (rank rtp_state) (rank rtcp_state) then rtp_state else rtcp_state)

-- The state that the components make: RTP's alone if RTCP is multiplexed with it.
abbrev pub derived : Bool → OwrSession → IceState
derived rtcp_mux s =
    if rtcp_mux then s.rtp_ice_state else aggregate_ice_state s.rtp_ice_state s.rtcp_ice_state

abbrev pub store_state : ℕ → IceState → OwrSession → OwrSession
store_state component state s =
    if component == component_rtp
    then record s { rtp_ice_state = state }
    else record s { rtcp_ice_state = state }

abbrev pub publish : Bool → IceState → OwrSession → OwrSession × List Call
publish rtcp_mux before s =
    let after = derived rtcp_mux s in
    if same_state before after
    then (s, [])
    else (record s { ice_state = after }, notify_ice_state after ∷ [])

unfoldable pub emit_ice_state_changed :
    (rtcp_mux : Bool) → ℕ → IceState → OwrSession → OwrSession × List Call
emit_ice_state_changed rtcp_mux component state s =
    publish rtcp_mux (derived rtcp_mux s) (store_state component state s)

-- The reports of libnice on a session, one after the other: a component and its new state.
unfoldable pub emit_all :
    (rtcp_mux : Bool) → List (ℕ × IceState) → OwrSession → OwrSession × List Call
unfolding emit_ice_state_changed
emit_all rtcp_mux [] s = (s, [])
emit_all rtcp_mux ((component, state) ∷ rest) s =
    let r = emit_ice_state_changed rtcp_mux component state s in
    let later = emit_all rtcp_mux rest (r.0) in (later.0, r.1 ++ later.1)

-- The session shows the state that its components make.
abbrev pub IsShown : Bool → OwrSession → Type 0
IsShown rtcp_mux s = s.ice_state ≡ derived rtcp_mux s

-- What a session with the given states of RTP and RTCP should show after each report.
abbrev pub meant : Bool → IceState → IceState → List (ℕ × IceState) → List IceState
meant rtcp_mux rtp_state rtcp_state [] = []
meant rtcp_mux rtp_state rtcp_state ((component, state) ∷ rest) =
    let rtp_state' = if component == component_rtp then state else rtp_state in
    let rtcp_state' = if component == component_rtp then rtcp_state else state in
    (if rtcp_mux then rtp_state' else aggregate_ice_state rtp_state' rtcp_state')
    ∷ meant rtcp_mux rtp_state' rtcp_state' rest

-- The members of a list that differ from the one before, the first from a given one.
abbrev pub changes : IceState → List IceState → List IceState
changes before [] = []
changes before (x ∷ xs) = let rest = changes x xs in if same_state before x then rest else x ∷ rest

same_state_sound : (a b : IceState) → same_state a b ≡ true → a ≡ b
same_state_sound a b h = ground arith

module _ (rtcp_mux : Bool) where
  IsShown-publish :
      (before : IceState) (s : OwrSession)
      → s.ice_state ≡ before
      → IsShown rtcp_mux ((publish rtcp_mux before s).0)
  IsShown-publish before s h = elim (Bool-cases (same_state before (derived rtcp_mux s))) [
    | inl e ↦ rw e (h ∙ same_state_sound before (derived rtcp_mux s) e)
    | inr e ↦ rw e refl
  ]

  rtp-publish :
      (before : IceState) (s : OwrSession)
      → ((publish rtcp_mux before s).0).rtp_ice_state ≡ s.rtp_ice_state
  rtp-publish before s = elim (Bool-cases (same_state before (derived rtcp_mux s))) [
    | inl e ↦ rw e refl
    | inr e ↦ rw e refl
  ]

  rtcp-publish :
      (before : IceState) (s : OwrSession)
      → ((publish rtcp_mux before s).0).rtcp_ice_state ≡ s.rtcp_ice_state
  rtcp-publish before s = elim (Bool-cases (same_state before (derived rtcp_mux s))) [
    | inl e ↦ rw e refl
    | inr e ↦ rw e refl
  ]

  shown-store_state :
      (component : ℕ) (state : IceState) (s : OwrSession)
      → (store_state component state s).ice_state ≡ s.ice_state
  shown-store_state component state s = ground arith

  calls-publish :
      (before : IceState) (s : OwrSession) (later : List Call)
      → (publish rtcp_mux before s).1 ++ later ≡ (
          if same_state before (derived rtcp_mux s)
          then later
          else notify_ice_state (derived rtcp_mux s) ∷ later)
  calls-publish before s later = elim (Bool-cases (same_state before (derived rtcp_mux s))) [
    | inl e ↦ rw e refl
    | inr e ↦ rw e refl
  ]

  map-changes :
      (before x : IceState) (xs : List IceState)
      → map notify_ice_state (changes before (x ∷ xs)) ≡ (
          if same_state before x
          then map notify_ice_state (changes x xs)
          else notify_ice_state x ∷ map notify_ice_state (changes x xs))
  map-changes before x xs = elim (Bool-cases (same_state before x)) [
    | inl e ↦ rw e refl
    | inr e ↦ rw e refl
  ]

  same_publish :
      (before : IceState) (s : OwrSession)
      → derived rtcp_mux ((publish rtcp_mux before s).0) ≡ derived rtcp_mux s
  same_publish before s = elim (Bool-cases (same_state before (derived rtcp_mux s))) [
    | inl e ↦ rw e refl
    | inr e ↦ rw e refl
  ]

  meant-cons :
      (component : ℕ) (state : IceState) (rest : List (ℕ × IceState)) (s : OwrSession)
      → let stored = store_state component state s in
        derived rtcp_mux stored ∷ meant rtcp_mux stored.rtp_ice_state stored.rtcp_ice_state rest
        ≡ meant rtcp_mux s.rtp_ice_state s.rtcp_ice_state ((component, state) ∷ rest)
  meant-cons component state rest s = elim (Bool-cases (component == component_rtp)) [
    | inl h ↦ rw h refl
    | inr h ↦ rw h refl
  ]

  -- What one report and those that follow it tell the observers.
  calls_after :
      (before : IceState) (s : OwrSession) (rest : List (ℕ × IceState)) (later : List Call)
      → let s' = (publish rtcp_mux before s).0 in
        later
          ≡ map notify_ice_state (
              changes
                (derived rtcp_mux s')
                (meant rtcp_mux s'.rtp_ice_state s'.rtcp_ice_state rest))
        → (publish rtcp_mux before s).1 ++ later
          ≡ map notify_ice_state (
              changes before
                (derived rtcp_mux s ∷ meant rtcp_mux s.rtp_ice_state s.rtcp_ice_state rest))
  calls_after before s rest later h =
      let tail = meant rtcp_mux s.rtp_ice_state s.rtcp_ice_state rest in
      let told : later ≡ map notify_ice_state (changes (derived rtcp_mux s) tail) =
        h
        ∙ ap
            (λ x. map notify_ice_state (
              changes x (
                meant rtcp_mux ((publish rtcp_mux before s).0.rtp_ice_state)
                  ((publish rtcp_mux before s).0.rtcp_ice_state) rest)))
            (same_publish before s)
        ∙ ap
            (λ x. map notify_ice_state (
              changes (derived rtcp_mux s)
                (meant rtcp_mux x ((publish rtcp_mux before s).0.rtcp_ice_state) rest)))
            (rtp-publish before s)
        ∙ ap
            (λ x.
              map notify_ice_state
                (changes (derived rtcp_mux s) (meant rtcp_mux s.rtp_ice_state x rest)))
            (rtcp-publish before s) in
      rw told (calls-publish before s _) ∙ sym (map-changes before (derived rtcp_mux s) tail)

  -- While RTCP stays multiplexed or stays apart, a session that shows the state of its components
  -- goes on to show it through all reports of libnice, and its observers are told each state that
  -- differs from the one before, once and in order, and nothing else.
  pub emit_all-IsShown :
      (events : List (ℕ × IceState)) (s : OwrSession)
      → IsShown rtcp_mux s
      → IsShown rtcp_mux ((emit_all rtcp_mux events s).0)
        × ((emit_all rtcp_mux events s).1
            ≡ map notify_ice_state (
                changes
                  (derived rtcp_mux s)
                  (meant rtcp_mux s.rtp_ice_state s.rtcp_ice_state events)))
  unfolding emit_all emit_ice_state_changed
  emit_all-IsShown [] s h = (h, refl)
  emit_all-IsShown ((component, state) ∷ rest) s h =
      let stored = store_state component state s in
      let s' = (publish rtcp_mux (derived rtcp_mux s) stored).0 in
      let (shown, calls) =
        emit_all-IsShown rest s'
          (IsShown-publish (derived rtcp_mux s) stored (shown-store_state component state s ∙ h)) in
      (
        shown,
        calls_after (derived rtcp_mux s) stored rest _ calls
            ∙ ap (λ l. map notify_ice_state (changes (derived rtcp_mux s) l))
                (meant-cons component state rest s),
      )

same_state_refl : (a : IceState) → same_state a a ≡ true
same_state_refl a = ground arith

-- If RTCP is multiplexed only after the session has shown the state of two components, and that
-- state is not RTP's, then a report that repeats RTP's state tells nobody, and the session goes on
-- to show a state that is not the one of its only component.
pub emit_ice_state_changed-stale :
    (s : OwrSession)
    → IsShown false s
    → same_state s.rtp_ice_state (derived false s) ≡ false
    → ((emit_ice_state_changed true component_rtp s.rtp_ice_state s).1 ≡ [])
      × (¬ IsShown true ((emit_ice_state_changed true component_rtp s.rtp_ice_state s).0))
unfolding emit_ice_state_changed
emit_ice_state_changed-stale s h differs =
    let still : same_state s.rtp_ice_state s.rtp_ice_state ≡ true =
      same_state_refl s.rtp_ice_state in
    (
      rw still refl,
      rw still (λ shown.
          let same : s.rtp_ice_state ≡ derived false s = sym shown ∙ h in
          let both : true ≡ false = sym still ∙ ap (same_state s.rtp_ice_state) same ∙ differs in
          cc),
    )
