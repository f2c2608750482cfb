-- ===== src/Candidate/Convert/Rejects.antt =====
-- When the translations of transport/owr_candidate.c give NULL, and what they give libnice.
use openwebrtc.Prelude.{
  ℕ, zero, suc, ◌-◌, ◌≤◌, ◌<◌, ◌≡◌, ◌≢◌, ◌↔◌, ◌⊎◌, refl, ap, subst, false, Option, none, some, List,
  [], ◌∷◌, take, length, arith, inl, inr, Bool-cases,
}
use openwebrtc.Candidate.{Candidate, NiceAddresses, NiceCandidate}
use openwebrtc.Candidate.Convert.{
  given, is_tcp_active, port_is_good, nice_of, to_nice_at, to_nice_candidate,
}
use openwebrtc.Candidate.Convert.RoundTrip.{text_of, copied}

length-take : (n : ℕ) (xs : List ℕ) → length (take n xs) ≤ n
length-take zero xs = omega arith
length-take (suc n) [] = omega arith
length-take (suc n) (x ∷ xs) = omega (arith, length-take n xs)

bad_port :
    (c : Candidate)
    → (port_is_good c ≡ false) ↔ ((c.port ≡ 0) × (is_tcp_active c.transport_type ≡ false))
bad_port c = ground arith

take-length-take : (n : ℕ) (xs : List ℕ) → take n xs ≡ take (length (take n xs)) xs
take-length-take zero xs = refl
take-length-take (suc n) [] = refl
take-length-take (suc n) (x ∷ xs) = ap (λ t. x ∷ t) (take-length-take n xs)

given-ne_nil : (o : Option (List ℕ)) → given o ≢ some []
given-ne_nil none e = ground arith
given-ne_nil (some []) e = ground arith
given-ne_nil (some (b ∷ bs)) e = ground arith

module _ (nice : NiceAddresses) where
  open nice use {Address, max_foundation}

  refused_at :
      (c : Candidate) (o : Option (List ℕ))
      → (to_nice_at nice c (given o) ≡ none)
        ↔ ((text_of o ≡ []) ⊎ ((c.port ≡ 0) × (is_tcp_active c.transport_type ≡ false)))
  unfolding to_nice_at
  refused_at c none = (λ e. inl refl, λ e. refl)
  refused_at c (some []) = (λ e. inl refl, λ e. refl)
  refused_at c (some (b ∷ bs)) = elim (Bool-cases (port_is_good c)) [
    | inl good ↦ ground (arith, bad_port c)
    | inr bad ↦ (λ e. inr ((bad_port c).0 bad), λ e. rw bad refl)
  ]

  -- A candidate is refused exactly when its address is NULL or empty, or its port is 0 and it is not
  -- an active TCP candidate.
  pub to_nice_candidate-refused :
      (c : Candidate)
      → (to_nice_candidate nice c ≡ none)
        ↔ ((text_of c.address ≡ []) ⊎ ((c.port ≡ 0) × (is_tcp_active c.transport_type ≡ false)))
  unfolding to_nice_candidate
  to_nice_candidate-refused c = refused_at c c.address

  abbrev Fits : Candidate → NiceCandidate Address → Type 0
  Fits c n =
      (suc (length n.foundation) ≤ max_foundation)
      × (n.foundation ≡ take (length n.foundation) (text_of c.foundation))
      × (n.username ≢ some [])
      × (n.password ≢ some [])

  Fits-nice_of : (c : Candidate) (text : List ℕ) → 0 < max_foundation → Fits c (nice_of nice c text)
  unfolding nice_of
  Fits-nice_of c text h =
      let size = max_foundation - 1 in
      (
        rw (copied nice c.foundation) (omega (arith, length-take size (text_of c.foundation))),
        rw (copied nice c.foundation) (take-length-take size (text_of c.foundation)),
        given-ne_nil c.ufrag,
        given-ne_nil c.password,
      )

  made_by :
      (c : Candidate) (o : Option (List ℕ)) (n : NiceCandidate Address)
      → to_nice_at nice c o ≡ some n
      → (text : List ℕ) × (nice_of nice c text ≡ n)
  unfolding to_nice_at
  made_by c none n e = absurd (ground arith)
  made_by c (some text) n e = (text, ground arith)

  -- What libnice is given fits: the foundation with its final NUL is no longer than libnice's buffer,
  -- and it is a beginning of the candidate's; a user name or password is never the empty text.
  pub to_nice_candidate-fits :
      (c : Candidate) (n : NiceCandidate Address)
      → 0 < max_foundation
      → to_nice_candidate nice c ≡ some n
      → (suc (length n.foundation) ≤ max_foundation)
        × (n.foundation ≡ take (length n.foundation) (text_of c.foundation))
        × (n.username ≢ some [])
        × (n.password ≢ some [])
  unfolding to_nice_candidate
  to_nice_candidate-fits c n h e =
      let (text, made) = made_by c (given c.address) n e in
      subst (Fits c) made (Fits-nice_of c text h)
