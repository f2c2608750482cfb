-- ===== src/Session/Events/Forced.antt =====
-- A forced remote candidate ends the forcing of pairs, transport/owr_session.c.
use openwebrtc.Prelude.{
  ℕ, ◌≡◌, refl, Bool, false, List, [], ◌∷◌, ◌++◌, ◌==◌, ltb, if_both, inl, inr, Bool-cases, Map,
}
use openwebrtc.Session.{
  OwrSession, Call, Property, set_property, on_new_candidate, on_candidate_gathering_done,
  set_local_port, set_dtls_peer_certificate, set_on_remote_candidate, set_on_local_candidate_change,
  clear_closures, component_max,
}
use openwebrtc.Session.Aggregate.{emit_ice_state_changed, store_state, derived, same_state}
use openwebrtc.Session.Remote.{member, listed, is_empty, add_remote_candidate, add_candidate_pair}
use openwebrtc.Session.Events.{
  Event, settle, step, run, property_set, new_candidate, gathering_over, remote_added, pair_forced,
  port_set, peer_certificate_set, ice_reported, remote_closure_set, local_closure_set,
  closures_cleared,
}

-- A remote candidate has been forced, and the pairs are the given ones.
abbrev pub IsFrozen : Map ℕ → Map ℕ → OwrSession → Type 0
IsFrozen locals remotes s =
    (s.local_candidate ≡ locals)
    × (s.remote_candidate ≡ remotes)
    × (is_empty s.forced_remote_candidates ≡ false)

longer_full : (c : ℕ) (xs : List ℕ) → is_empty (xs ++ c ∷ []) ≡ false
longer_full c [] = refl
longer_full c (x ∷ xs) = refl

module _ (locals remotes : Map ℕ) where
  IsFrozen-set_property :
      (s : OwrSession) (p : Property)
      → IsFrozen locals remotes s
      → IsFrozen locals remotes (set_property s p)
  unfolding set_property
  IsFrozen-set_property s (Property.dtls_client_mode b) v = v
  IsFrozen-set_property s (Property.dtls_certificate t) v = v
  IsFrozen-set_property s (Property.dtls_key t) v = v
  IsFrozen-set_property s Property.other v = v

  IsFrozen-add_remote_candidate :
      (s : OwrSession) (c : ℕ) (forced : Bool)
      → IsFrozen locals remotes s
      → IsFrozen locals remotes ((settle s (add_remote_candidate c forced s)).0)
  unfolding add_remote_candidate
  IsFrozen-add_remote_candidate s c forced (l, r, f) =
      elim (Bool-cases (member c (listed forced s))) [
        | inl old ↦ rw old (l, r, f)
        | inr new ↦ elim (Bool-cases (member c s.local_candidates)) [
          | inl own ↦ rw (new, own) (l, r, f)
          | inr other ↦
              rw (new, other)
                (if_both (IsFrozen locals remotes) forced _ _
                  (l, r, longer_full c s.forced_remote_candidates) (l, r, f))
        ]
      ]

  IsFrozen-add_candidate_pair :
      (s : OwrSession) (component l r : ℕ)
      → IsFrozen locals remotes s
      → IsFrozen locals remotes ((settle s (add_candidate_pair component l r s)).0)
  unfolding add_candidate_pair
  IsFrozen-add_candidate_pair s component l r (p, q, f) =
      elim (Bool-cases (ltb component component_max)) [
        | inl small ↦ rw (small, f) (p, q, f)
        | inr large ↦ rw large (p, q, f)
      ]

  IsFrozen-step :
      (s : OwrSession) (e : Event)
      → IsFrozen locals remotes s
      → IsFrozen locals remotes ((step s e).0)
  unfolding step on_new_candidate on_candidate_gathering_done set_local_port
      set_dtls_peer_certificate set_on_remote_candidate set_on_local_candidate_change clear_closures
      emit_ice_state_changed
  IsFrozen-step s (property_set p) v = IsFrozen-set_property s p v
  IsFrozen-step s (new_candidate c) v = v
  IsFrozen-step s gathering_over v = v
  IsFrozen-step s (remote_added c forced) v = IsFrozen-add_remote_candidate s c forced v
  IsFrozen-step s (pair_forced component l r) v = IsFrozen-add_candidate_pair s component l r v
  IsFrozen-step s (port_set component port) v =
      if_both (IsFrozen locals remotes) (ltb component component_max) _ s
        (if_both (IsFrozen locals remotes) (component == 1) _ _ v v) v
  IsFrozen-step s (peer_certificate_set t) v = v
  IsFrozen-step s (ice_reported rtcp_mux component state) v =
      let stored : IsFrozen locals remotes (store_state component state s) =
        if_both (IsFrozen locals remotes) (component == 1) _ _ v v in
      if_both (λ (r : OwrSession × List Call). IsFrozen locals remotes (r.0))
        (same_state (derived rtcp_mux s) (derived rtcp_mux (store_state component state s))) _ _
        stored stored
  IsFrozen-step s (remote_closure_set f) v = v
  IsFrozen-step s (local_closure_set f) v = v
  IsFrozen-step s closures_cleared v = v

  -- Once a remote candidate has been forced, no event of the session changes a pair, and there is
  -- always a forced candidate.
  pub run-IsFrozen :
      (es : List Event) (s : OwrSession)
      → IsFrozen locals remotes s
      → IsFrozen locals remotes ((run s es).0)
  unfolding run
  run-IsFrozen [] s v = v
  run-IsFrozen (e ∷ es) s v = run-IsFrozen es ((step s e).0) (IsFrozen-step s e v)
