-- ===== src/Session/Events.antt =====
-- The events of a session, transport/owr_session.c: what the application, libnice and the agent do
-- to its candidates, in any order.
pub mod Pairs
pub mod Forced
use openwebrtc.Prelude.{ℕ, Bool, true, false, Option, none, some, List, [], ◌∷◌, ◌++◌}
use openwebrtc.Session.{
  IceState, OwrSession, Call, Property, set_property, on_new_candidate, on_candidate_gathering_done,
  set_local_port, set_dtls_peer_certificate, set_on_remote_candidate, set_on_local_candidate_change,
  clear_closures,
}
use openwebrtc.Session.Aggregate.{emit_ice_state_changed}
use openwebrtc.Session.Remote.{Result, done, refused, add_remote_candidate, add_candidate_pair}

pub data Event : Type 0 where
  property_set : Property → Event
  new_candidate : ℕ → Event
  gathering_over : Event
  remote_added : (candidate : ℕ) → (forced : Bool) → Event
  pair_forced : (component local_candidate remote_candidate : ℕ) → Event
  port_set : (component port : ℕ) → Event
  peer_certificate_set : Option (List ℕ) → Event
  ice_reported : (rtcp_mux : Bool) → ℕ → IceState → Event
  remote_closure_set local_closure_set : ℕ → Event
  closures_cleared : Event

-- A refusal leaves the session as it is and calls nobody.
abbrev pub settle : OwrSession → Result → OwrSession × List Call
settle s (done s' calls) = (s', calls)
settle s (refused why) = (s, [])

unfoldable pub step : OwrSession → Event → OwrSession × List Call
step s (property_set p) = (set_property s p, [])
step s (new_candidate c) = (on_new_candidate c s, [])
step s gathering_over = (on_candidate_gathering_done s, [])
step s (remote_added c forced) = settle s (add_remote_candidate c forced s)
step s (pair_forced component l r) = settle s (add_candidate_pair component l r s)
step s (port_set component port) = (set_local_port component port s, [])
step s (peer_certificate_set t) = set_dtls_peer_certificate t s
step s (ice_reported rtcp_mux component state) = emit_ice_state_changed rtcp_mux component state s
step s (remote_closure_set f) = ((set_on_remote_candidate f s).0, [])
step s (local_closure_set f) = ((set_on_local_candidate_change f s).0, [])
step s closures_cleared = ((clear_closures s).0, [])

unfoldable pub run : OwrSession → List Event → OwrSession × List Call
unfolding step
run s [] = (s, [])
run s (e ∷ es) = let r = step s e in let later = run (r.0) es in (later.0, r.1 ++ later.1)
