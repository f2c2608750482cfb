-- ===== src/Tests/Session.antt =====
-- A session with two local candidates, a remote one and a forced pair.
use openwebrtc.Prelude.{
  ℕ, ◌*◌, ◌≡◌, refl, true, false, some, List, [], ◌∷◌, ◌++◌, map, lookup, insert,
}
use openwebrtc.Candidate.{Candidate, Property}
use openwebrtc.Candidate as C
use openwebrtc.Session.{
  IceState, OwrSession, Call, init, notify_ice_state, remote_candidate, local_candidate_change,
  on_new_candidate, component_rtp, dtls_text, set_on_remote_candidate,
}
use openwebrtc.Session.Aggregate.{
  emit_ice_state_changed, emit_all, IsShown, derived, meant, changes, aggregate_ice_state,
  emit_all-IsShown, emit_ice_state_changed-stale,
}
use openwebrtc.Session.Remote.{member, add_remote_candidate, add_candidate_pair}
use openwebrtc.Session.Credentials.{World, notifications, count, store, invoke_change, object_set}
use openwebrtc.Session.Credentials.Settled.{Becomes, agreed_if, repeat, object_set-settles}
use openwebrtc.Session.Events.{
  Event, step, run, new_candidate, remote_added, pair_forced, remote_closure_set,
}
use openwebrtc.Session.Events.Pairs.{IsSound, IsSound-init, run-IsSound}
use openwebrtc.Session.Events.Forced.{IsFrozen, run-IsFrozen}

abbrev reports : List (ℕ × IceState)
reports =
    (1, IceState.connected)
    ∷ (2, IceState.connecting)
    ∷ (2, IceState.ready)
    ∷ (1, IceState.failed)
    ∷ []

starts-IsShown : IsShown false init
unfolding init aggregate_ice_state
starts-IsShown = refl

emit_all-IsShown_example :
    IsShown false ((emit_all false reports init).0)
    × ((emit_all false reports init).1
        ≡ map notify_ice_state (
            changes
              (derived false init)
              (meant false init.rtp_ice_state init.rtcp_ice_state reports)))
emit_all-IsShown_example = emit_all-IsShown false reports init starts-IsShown

-- Observers see the lower of the two states, and failure at once.
observed_test :
    (emit_all false reports init).1
    ≡ notify_ice_state IceState.connecting
      ∷ notify_ice_state IceState.connected
      ∷ notify_ice_state IceState.failed
      ∷ []
unfolding emit_all emit_ice_state_changed aggregate_ice_state init
observed_test = refl

abbrev split_state : OwrSession
split_state = record init {
  rtp_ice_state = IceState.connected;
  rtcp_ice_state = IceState.connecting;
  ice_state = IceState.connecting;
}

split-IsShown : IsShown false split_state
unfolding aggregate_ice_state
split-IsShown = refl

split_differs :
    openwebrtc.Session.Aggregate.same_state split_state.rtp_ice_state (derived false split_state)
    ≡ false
unfolding aggregate_ice_state
split_differs = refl

emit_ice_state_changed-stale_test :
    ((emit_ice_state_changed true component_rtp IceState.connected split_state).1 ≡ [])
    × (¬ IsShown true
        ((emit_ice_state_changed true component_rtp IceState.connected split_state).0))
emit_ice_state_changed-stale_test =
    emit_ice_state_changed-stale split_state split-IsShown split_differs

abbrev events : List Event
events =
    remote_closure_set 9
    ∷ new_candidate 40
    ∷ new_candidate 41
    ∷ remote_added 70 false
    ∷ remote_added 70 false
    ∷ remote_added 41 false
    ∷ pair_forced 1 40 70
    ∷ pair_forced 2 40 71
    ∷ remote_added 72 true
    ∷ pair_forced 2 41 70
    ∷ []

run-IsSound_example : IsSound ((run init events).0)
run-IsSound_example = run-IsSound events init IsSound-init

-- The closure hears of the two candidates that are taken, and only the first pair is set.
events_test :
    ((run init events).1 ≡ remote_candidate 9 false ∷ remote_candidate 9 true ∷ [])
    × ((run init events).0.local_candidate ≡ (1, 40) ∷ [])
    × ((run init events).0.remote_candidates ≡ 70 ∷ [])
unfolding run step add_remote_candidate add_candidate_pair set_on_remote_candidate on_new_candidate
    init member lookup insert
events_test = (refl, refl, refl)

abbrev forced_session : OwrSession
forced_session = record init {
  forced_remote_candidates = 72 ∷ [];
  local_candidate = (1, 40) ∷ [];
  remote_candidate = (1, 70) ∷ [];
}

forced_pairs_test : IsFrozen ((1, 40) ∷ []) ((1, 70) ∷ []) ((run forced_session events).0)
forced_pairs_test =
    run-IsFrozen ((1, 40) ∷ []) ((1, 70) ∷ []) events forced_session (refl, refl, refl)

abbrev world : World
world = record {
  session = record init {
    local_candidates = 40 ∷ 41 ∷ 42 ∷ [];
    on_local_candidate_change = some 5;
  };
  candidates = λ k. C.init;
  blocked = [];
  calls = [];
}

abbrev new_ufrag : List Property
new_ufrag = Property.ufrag (some (b'u' ∷ [])) ∷ []

object_set-settles_example :
    (w' : World) × (object_set 2 41 new_ufrag world ≡ some w')
    × Becomes
        (agreed_if
          (notifications new_ufrag * count 41 world.session.local_candidates)
          41
          world.session.local_candidates
          (store 41 new_ufrag world).candidates)
        ([]
          ++ repeat
              (notifications new_ufrag * count 41 world.session.local_candidates)
              (invoke_change (some 5) 41))
        world
        w'
object_set-settles_example = object_set-settles 0 41 new_ufrag world refl
