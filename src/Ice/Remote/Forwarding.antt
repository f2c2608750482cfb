-- ===== src/Ice/Remote/Forwarding.antt =====
-- Which remote candidates reach libnice, transport/owr_transport_agent.c.
use openwebrtc.Prelude.{
  ℕ, ◌≡◌, refl, ap, sym, ◌∙◌, Bool, true, false, not, Option, none, some, List, [], ◌∷◌, ◌++◌, ◌==◌,
  if◌then◌else◌, inl, inr, Bool-cases, Map,
}
use mathlib.Core.List.{append-nil, append_assoc}
use openwebrtc.Candidate.{Candidate, NiceAddresses, NiceCandidate, NiceComponentType}
use openwebrtc.Candidate.Convert.{to_nice_candidate}
use openwebrtc.Session.{OwrSession, remote_candidate}
use openwebrtc.Session.Remote.{done, member, listed, append_to, invoke_remote, add_remote_candidate}
use openwebrtc.Ice.Remote.{
  get_stream_id, RemoteCall, Collected, or_first, is_rtp, nothing_collected, collect_one, collect,
  selections, credentials_call, candidates_call, tell, on_new_remote_candidate,
}

abbrev pub keep {ℓ} : {A : Type ℓ} → (A → Bool) → List A → List A
keep p [] = []
keep p (x ∷ xs) = let rest = keep p xs in if p x then x ∷ rest else rest

keep-append {ℓ} :
    {A : Type ℓ} (p : A → Bool) (xs ys : List A) → keep p (xs ++ ys) ≡ keep p xs ++ keep p ys
keep-append p [] ys = refl
keep-append p (x ∷ xs) ys = elim (Bool-cases (p x)) [
  | inl h ↦ rw h (ap (λ l. x ∷ l) (keep-append p xs ys))
  | inr h ↦ rw h (keep-append p xs ys)
]

or_first_assoc : (a b c : Option (List ℕ)) → or_first (or_first a b) c ≡ or_first a (or_first b c)
or_first_assoc none b c = refl
or_first_assoc (some t) b c = refl

or_first-none : (a : Option (List ℕ)) → a ≡ or_first a none
or_first-none none = refl
or_first-none (some t) = refl

Collected-ext :
    {A : Type 0} (a b : Collected A)
    → a.username ≡ b.username
    → a.password ≡ b.password
    → a.selected ≡ b.selected
    → a.nice_cands_rtp ≡ b.nice_cands_rtp
    → a.nice_cands_rtcp ≡ b.nice_cands_rtcp
    → a ≡ b
Collected-ext a b u p s r t = λ i. record {
  username = u i;
  password = p i;
  selected = s i;
  nice_cands_rtp = r i;
  nice_cands_rtcp = t i;
}

module _ (nice : NiceAddresses) (objects : ℕ → Candidate) where
  open nice use {Address}

  abbrev pub translated : Option (NiceCandidate Address) → List (NiceCandidate Address)
  translated none = []
  translated (some n) = n ∷ []

  -- The candidates of a list that can be translated.
  abbrev pub converted : List ℕ → List (NiceCandidate Address)
  converted [] = []
  converted (c ∷ cs) = translated (to_nice_candidate nice (objects c)) ++ converted cs

  abbrev pub for_rtp : NiceCandidate Address → Bool
  for_rtp n = is_rtp n.component_id

  abbrev pub for_rtcp : NiceCandidate Address → Bool
  for_rtcp n = not (is_rtp n.component_id)

  -- The first user name and the first password that are given.
  abbrev pub first_username : List (NiceCandidate Address) → Option (List ℕ)
  first_username [] = none
  first_username (n ∷ ns) = or_first n.username (first_username ns)

  abbrev pub first_password : List (NiceCandidate Address) → Option (List ℕ)
  first_password [] = none
  first_password (n ∷ ns) = or_first n.password (first_password ns)

  -- What the loop has collected after a list, given what it had before.
  abbrev gathered : Bool → List (NiceCandidate Address) → Collected Address → Collected Address
  gathered forced ns v = record {
    username = or_first v.username (first_username ns);
    password = or_first v.password (first_password ns);
    selected = if forced then v.selected ++ ns else v.selected;
    nice_cands_rtp = if forced then v.nice_cands_rtp else v.nice_cands_rtp ++ keep for_rtp ns;
    nice_cands_rtcp = if forced then v.nice_cands_rtcp else v.nice_cands_rtcp ++ keep for_rtcp ns;
  }

  gathered_none : (forced : Bool) (v : Collected Address) → v ≡ gathered forced [] v
  gathered_none true v =
      Collected-ext v _ (or_first-none v.username) (or_first-none v.password)
        (sym (append-nil v.selected)) refl refl
  gathered_none false v =
      Collected-ext v _ (or_first-none v.username) (or_first-none v.password) refl
        (sym (append-nil v.nice_cands_rtp)) (sym (append-nil v.nice_cands_rtcp))

  gathered-one :
      (forced : Bool) (o : Option (NiceCandidate Address)) (ns : List (NiceCandidate Address))
      (v : Collected Address)
      → gathered forced ns (collect_one nice forced o v) ≡ gathered forced (translated o ++ ns) v
  unfolding collect_one
  gathered-one forced none ns v = refl
  gathered-one true (some n) ns v =
      Collected-ext _ _ (or_first_assoc v.username n.username (first_username ns))
        (or_first_assoc v.password n.password (first_password ns))
        (append_assoc v.selected (n ∷ []) ns) refl refl
  gathered-one false (some n) ns v = elim (Bool-cases (is_rtp n.component_id)) [
    | inl h ↦ rw h (
        Collected-ext _ _ (or_first_assoc v.username n.username (first_username ns))
          (or_first_assoc v.password n.password (first_password ns)) refl
          (append_assoc v.nice_cands_rtp (n ∷ []) (keep for_rtp ns)) refl)
    | inr h ↦ rw h (
        Collected-ext _ _ (or_first_assoc v.username n.username (first_username ns))
          (or_first_assoc v.password n.password (first_password ns)) refl refl
          (append_assoc v.nice_cands_rtcp (n ∷ []) (keep for_rtcp ns)))
  ]

  collect-gathered :
      (forced : Bool) (cs : List ℕ) (v : Collected Address)
      → collect nice objects forced cs v ≡ gathered forced (converted cs) v
  unfolding collect
  collect-gathered forced [] v = gathered_none forced v
  collect-gathered forced (c ∷ cs) v =
      collect-gathered forced cs _
      ∙ gathered-one forced (to_nice_candidate nice (objects c)) (converted cs) v

  -- What libnice should be told of a list of candidates, of those that the application forces or of
  -- the others.
  abbrev pub meant : ℕ → Bool → List (NiceCandidate Address) → List (RemoteCall Address)
  meant stream forced ns =
      (if forced then selections nice stream ns else [])
      ++ (credentials_call nice stream (first_username ns) (first_password ns)
          ++ (if forced
              then []
              else candidates_call nice stream NiceComponentType.rtp (keep for_rtp ns)
                ++ candidates_call nice stream NiceComponentType.rtcp (keep for_rtcp ns)))

  tell-meant :
      (stream : ℕ) (forced : Bool) (ns : List (NiceCandidate Address))
      → tell nice stream (gathered forced ns (nothing_collected nice)) ≡ meant stream forced ns
  unfolding tell
  tell-meant stream true ns = refl
  tell-meant stream false ns = refl

  converted-append :
      (xs : List ℕ) (c : ℕ)
      → converted (xs ++ c ∷ []) ≡ converted xs ++ translated (to_nice_candidate nice (objects c))
  converted-append [] c = append-nil (translated (to_nice_candidate nice (objects c)))
  converted-append (x ∷ xs) c =
      ap (λ l. translated (to_nice_candidate nice (objects x)) ++ l) (converted-append xs c)
      ∙ sym (append_assoc (translated (to_nice_candidate nice (objects x))) (converted xs) _)

  module _ (streams : Map ℕ) (session : ℕ) where
    on_new_remote_candidate-meant :
        (forced : Bool) (s : OwrSession)
        → (get_stream_id session streams == 0) ≡ false
        → on_new_remote_candidate nice objects streams session forced s
          ≡ meant (get_stream_id session streams) forced (converted (listed forced s))
    unfolding on_new_remote_candidate
    on_new_remote_candidate-meant forced s h = rw h (
        ap (tell nice (get_stream_id session streams))
          (collect-gathered forced (listed forced s) (nothing_collected nice))
        ∙ tell-meant (get_stream_id session streams) forced (converted (listed forced s)))

    listed-append :
        (c : ℕ) (forced : Bool) (s : OwrSession)
        → listed forced (append_to forced c s) ≡ listed forced s ++ c ∷ []
    listed-append c true s = refl
    listed-append c false s = refl

    -- A remote candidate that the session does not know in the same way, and that is not local, is
    -- taken, and the session's closure is called. If that is the agent's, libnice is then told of
    -- all candidates of the session that can be translated, the new one last: a forced one is made
    -- the selected one, and others are set for RTP and RTCP apart; the first user name and password
    -- among them become the remote credentials, if both are there.
    pub add_remote_candidate-meant :
        (c : ℕ) (forced : Bool) (s : OwrSession) (f : ℕ)
        → s.on_remote_candidate ≡ some f
        → member c (listed forced s) ≡ false
        → member c s.local_candidates ≡ false
        → (get_stream_id session streams == 0) ≡ false
        → (s' : OwrSession) × (add_remote_candidate c forced s
            ≡ done s' (remote_candidate f forced ∷ []))
          × (on_new_remote_candidate nice objects streams session forced s'
              ≡ meant
                  (get_stream_id session streams)
                  forced
                  (converted (listed forced s) ++ translated (to_nice_candidate nice (objects c))))
    unfolding add_remote_candidate
    add_remote_candidate-meant c forced s f e new apart there = (
      append_to forced c s,
      rw (new, apart) (ap (λ o. done (append_to forced c s) (invoke_remote o forced)) e),
      on_new_remote_candidate-meant forced (append_to forced c s) there
          ∙ ap (λ l. meant (get_stream_id session streams) forced (converted l))
              (listed-append c forced s)
          ∙ ap (meant (get_stream_id session streams) forced)
              (converted-append (listed forced s) c),
    )
