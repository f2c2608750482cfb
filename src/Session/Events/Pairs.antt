-- ===== src/Session/Events/Pairs.antt =====
-- Candidate lists and forced pairs of a session through all events, transport/owr_session.c.
use openwebrtc.Prelude.{
  ℕ, ◌<◌, ◌≡◌, refl, ap, sym, ◌∙◌, subst, Bool, true, false, not, ◌||◌, Option, none, some, List,
  [], ◌∷◌, ◌++◌, arith, ◌==◌, ltb, ltb→lt, if◌then◌else◌, if_both, inl, inr, Bool-cases, lookup,
  insert, lookup-insert,
}
use openwebrtc.Session.{
  IceState, OwrSession, Call, Property, init, set_property, on_new_candidate,
  on_candidate_gathering_done, set_local_port, set_dtls_peer_certificate, set_on_remote_candidate,
  set_on_local_candidate_change, clear_closures, component_max,
}
use openwebrtc.Session.Aggregate.{emit_ice_state_changed, publish, store_state, derived, same_state}
use openwebrtc.Session.Remote.{
  member, Result, append_to, listed, is_empty, add_remote_candidate, add_candidate_pair,
}
use openwebrtc.Session.Events.{
  Event, settle, step, run, property_set, new_candidate, gathering_over, remote_added, pair_forced,
  port_set, peer_certificate_set, ice_reported, remote_closure_set, local_closure_set,
  closures_cleared,
}

abbrev pub Distinct : List ℕ → Type 0
Distinct [] = Unit
Distinct (x ∷ xs) = (member x xs ≡ false) × Distinct xs

member-append : (c d : ℕ) (xs : List ℕ) → member c (xs ++ d ∷ []) ≡ (member c xs || d == c)
unfolding member
member-append c d [] = ground arith
member-append c d (x ∷ xs) = ground (arith, member-append c d xs)

Distinct-append :
    (c : ℕ) (xs : List ℕ) → member c xs ≡ false → Distinct xs → Distinct (xs ++ c ∷ [])
unfolding member
Distinct-append c [] h d = (refl, tt)
Distinct-append c (x ∷ xs) h d =
    (ground (arith, member-append x c xs), Distinct-append c xs (ground arith) (d.1))

-- A component has no pair, or one of a local candidate and of an added remote one.
abbrev pub Paired : Option ℕ → Option ℕ → List ℕ → List ℕ → Type 0
Paired none none locals remotes = Unit
Paired (some l) (some r) locals remotes = (member l locals ≡ true) × (member r remotes ≡ true)
Paired none (some r) locals remotes = ⊥
Paired (some l) none locals remotes = ⊥

pub record IsSound (s : OwrSession) : Type 0 where
  pub distinct : Distinct s.remote_candidates
  pub distinct_forced : Distinct s.forced_remote_candidates
  pub paired :
      (k : ℕ)
      → Paired
          (lookup k s.local_candidate)
          (lookup k s.remote_candidate)
          s.local_candidates
          s.remote_candidates
  pub bounded : (k l : ℕ) → lookup k s.local_candidate ≡ some l → k < component_max

pub IsSound-init : IsSound init
unfolding init lookup
IsSound-init = record {
  distinct = tt;
  distinct_forced = tt;
  paired = λ k. tt;
  bounded = λ k l e. absurd (ground arith);
}

Paired-more :
    (o p : Option ℕ) (locals remotes locals' remotes' : List ℕ)
    → ((c : ℕ) → member c locals ≡ true → member c locals' ≡ true)
    → ((c : ℕ) → member c remotes ≡ true → member c remotes' ≡ true)
    → Paired o p locals remotes
    → Paired o p locals' remotes'
Paired-more none none locals remotes locals' remotes' f g h = tt
Paired-more (some l) (some r) locals remotes locals' remotes' f g h = (f l h.0, g r h.1)
Paired-more none (some r) locals remotes locals' remotes' f g h = h
Paired-more (some l) none locals remotes locals' remotes' f g h = h

member-longer : (d c : ℕ) (xs : List ℕ) → member c xs ≡ true → member c (xs ++ d ∷ []) ≡ true
member-longer d c xs h = member-append c d xs ∙ ap (λ b. b || d == c) h

if_settled :
    (s : OwrSession) (P : OwrSession → Type 0) (b : Bool) (x y : Result)
    → (b ≡ true → P ((settle s x).0))
    → (b ≡ false → P ((settle s y).0))
    → P ((settle s (if b then x else y)).0)
if_settled s P true x y f g = f refl
if_settled s P false x y f g = g refl

not-false : (b : Bool) → not b ≡ false → b ≡ true
not-false true h = refl
not-false false h = sym h

module _ {s : OwrSession} (v : IsSound s) where
  IsSound-same :
      (t : OwrSession)
      → t.local_candidates ≡ s.local_candidates
      → t.remote_candidates ≡ s.remote_candidates
      → t.forced_remote_candidates ≡ s.forced_remote_candidates
      → t.local_candidate ≡ s.local_candidate
      → t.remote_candidate ≡ s.remote_candidate
      → IsSound t
  IsSound-same t l r f p q = record {
    distinct = rw r (v.distinct);
    distinct_forced = rw f (v.distinct_forced);
    paired = λ k. rw (p, q, l, r) (v.paired k);
    bounded = λ k c e. v.bounded k c (ap (lookup k) (sym p) ∙ e);
  }

  IsSound-set_property : (p : Property) → IsSound (set_property s p)
  unfolding set_property
  IsSound-set_property (Property.dtls_client_mode b) = IsSound-same _ refl refl refl refl refl
  IsSound-set_property (Property.dtls_certificate t) = IsSound-same _ refl refl refl refl refl
  IsSound-set_property (Property.dtls_key t) = IsSound-same _ refl refl refl refl refl
  IsSound-set_property Property.other = v

  IsSound-on_new_candidate : (c : ℕ) → IsSound (on_new_candidate c s)
  unfolding on_new_candidate
  IsSound-on_new_candidate c = record {
    distinct = v.distinct;
    distinct_forced = v.distinct_forced;
    paired = λ k.
        Paired-more (lookup k s.local_candidate) (lookup k s.remote_candidate) s.local_candidates
          s.remote_candidates (s.local_candidates ++ c ∷ []) s.remote_candidates
          (λ d h. member-longer c d s.local_candidates h) (λ d h. h) (v.paired k);
    bounded = v.bounded;
  }

  IsSound-append :
      (c : ℕ) (forced : Bool) → member c (listed forced s) ≡ false → IsSound (append_to forced c s)
  IsSound-append c true h = record {
    distinct = v.distinct;
    distinct_forced = Distinct-append c s.forced_remote_candidates h v.distinct_forced;
    paired = v.paired;
    bounded = v.bounded;
  }
  IsSound-append c false h = record {
    distinct = Distinct-append c s.remote_candidates h v.distinct;
    distinct_forced = v.distinct_forced;
    paired = λ k.
        Paired-more (lookup k s.local_candidate) (lookup k s.remote_candidate) s.local_candidates
          s.remote_candidates s.local_candidates (s.remote_candidates ++ c ∷ []) (λ d g. g)
          (λ d g. member-longer c d s.remote_candidates g) (v.paired k);
    bounded = v.bounded;
  }

  IsSound-add_remote_candidate :
      (c : ℕ) (forced : Bool) → IsSound ((settle s (add_remote_candidate c forced s)).0)
  unfolding add_remote_candidate
  IsSound-add_remote_candidate c forced = elim (Bool-cases (member c (listed forced s))) [
    | inl old ↦ rw old v
    | inr new ↦ elim (Bool-cases (member c s.local_candidates)) [
      | inl l ↦ rw (new, l) v
      | inr l ↦ rw (new, l) (IsSound-append c forced new)
    ]
  ]

  IsSound-paired :
      (component l r : ℕ)
      → ltb component component_max ≡ true
      → member l s.local_candidates ≡ true
      → member r s.remote_candidates ≡ true
      → IsSound (record s {
        local_candidate = insert component l s.local_candidate;
        remote_candidate = insert component r s.remote_candidate;
      })
  IsSound-paired component l r small local remote = record {
    distinct = v.distinct;
    distinct_forced = v.distinct_forced;
    paired = λ k. elim (Bool-cases (component == k)) [
      | inl h ↦
          rw
            (
              lookup-insert component k l s.local_candidate,
              lookup-insert component k r s.remote_candidate,
              h,
            )
            (local, remote)
      | inr h ↦
          rw
            (
              lookup-insert component k l s.local_candidate,
              lookup-insert component k r s.remote_candidate,
              h,
            )
            (v.paired k)
    ];
    bounded = λ k c e. elim (Bool-cases (component == k)) [
      | inl h ↦
          let same : component ≡ k = ground arith in
          subst (λ j. j < component_max) same (ltb→lt component component_max small)
      | inr h ↦ v.bounded k c (ground (arith, lookup-insert component k l s.local_candidate))
    ];
  }

  IsSound-add_candidate_pair :
      (component l r : ℕ) → IsSound ((settle s (add_candidate_pair component l r s)).0)
  unfolding add_candidate_pair
  IsSound-add_candidate_pair component l r =
      if_settled s IsSound (not (ltb component component_max)) _ _ (λ h. v)
        λ small.
          if_settled s IsSound (not (is_empty s.forced_remote_candidates)) _ _ (λ h. v)
            λ free.
              if_settled s IsSound (not (member r s.remote_candidates)) _ _ (λ h. v)
                λ remote.
                  if_settled s IsSound (member r s.local_candidates) _ _ (λ h. v)
                    λ apart.
                      if_settled s IsSound (not (member l s.local_candidates)) _ _ (λ h. v)
                        λ local.
                          IsSound-paired component l r (not-false _ small) (not-false _ local)
                            (not-false _ remote)

  IsSound-set_local_port : (component port : ℕ) → IsSound (set_local_port component port s)
  unfolding set_local_port
  IsSound-set_local_port component port =
      if_both IsSound (ltb component component_max) _ s
        (if_both IsSound (component == 1) _ _ (IsSound-same _ refl refl refl refl refl)
          (IsSound-same _ refl refl refl refl refl))
        v

  IsSound-store_state : (component : ℕ) (state : IceState) → IsSound (store_state component state s)
  IsSound-store_state component state =
      if_both IsSound (component == 1) _ _ (IsSound-same _ refl refl refl refl refl)
        (IsSound-same _ refl refl refl refl refl)

IsSound-publish :
    (rtcp_mux : Bool) (before : IceState) (s : OwrSession)
    → IsSound s
    → IsSound ((publish rtcp_mux before s).0)
IsSound-publish rtcp_mux before s v =
    if_both (λ (r : OwrSession × List Call). IsSound (r.0)) (same_state before (derived rtcp_mux s))
      _ _ v (IsSound-same v _ refl refl refl refl refl)

IsSound-step : (s : OwrSession) (e : Event) → IsSound s → IsSound ((step s e).0)
unfolding step on_candidate_gathering_done set_dtls_peer_certificate set_on_remote_candidate
    set_on_local_candidate_change clear_closures emit_ice_state_changed
IsSound-step s (property_set p) v = IsSound-set_property v p
IsSound-step s (new_candidate c) v = IsSound-on_new_candidate v c
IsSound-step s gathering_over v = IsSound-same v _ refl refl refl refl refl
IsSound-step s (remote_added c forced) v = IsSound-add_remote_candidate v c forced
IsSound-step s (pair_forced component l r) v = IsSound-add_candidate_pair v component l r
IsSound-step s (port_set component port) v = IsSound-set_local_port v component port
IsSound-step s (peer_certificate_set t) v = IsSound-same v _ refl refl refl refl refl
IsSound-step s (ice_reported rtcp_mux component state) v =
    IsSound-publish rtcp_mux (derived rtcp_mux s) (store_state component state s)
      (IsSound-store_state v component state)
IsSound-step s (remote_closure_set f) v = IsSound-same v _ refl refl refl refl refl
IsSound-step s (local_closure_set f) v = IsSound-same v _ refl refl refl refl refl
IsSound-step s closures_cleared v = IsSound-same v _ refl refl refl refl refl

-- From a state in which this holds, whatever happens to a session, in any order: no remote candidate is listed twice, nor is a forced
-- one, and each component has no pair, or a pair of a candidate that was gathered here and one that
-- was added as remote, and then it is a component below OWR_COMPONENT_MAX.
pub run-IsSound : (es : List Event) (s : OwrSession) → IsSound s → IsSound ((run s es).0)
unfolding run
run-IsSound [] s v = v
run-IsSound (e ∷ es) s v = run-IsSound es ((step s e).0) (IsSound-step s e v)
