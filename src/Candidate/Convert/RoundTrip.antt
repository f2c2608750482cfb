-- ===== src/Candidate/Convert/RoundTrip.antt =====
-- A candidate survives the way to libnice and back, transport/owr_candidate.c.
use openwebrtc.Prelude.{
  ℕ, suc, ◌-◌, ◌≡◌, refl, ap, sym, ◌∙◌, true, Option, none, some, List, [], ◌∷◌, take, length,
  take-of_le, arith, leb, inl, inr, Bool-cases,
}
use openwebrtc.Candidate.{
  CandidateType, ComponentType, TransportType, Candidate, set_property, set_properties, init, new,
  NiceAddresses, NiceCandidate, to_nice_type, to_nice_component, to_nice_transport, from_nice_type,
  from_nice_component, from_nice_transport,
}
use openwebrtc.Candidate.Convert.{
  given, port_is_good, min, strlcpy, copy_foundation, set_base, set_base_port, nice_of, to_nice_at,
  to_nice_candidate, properties_of, from_nice_at, new_from_nice_candidate,
}

-- NULL or an empty text, read as the empty text.
abbrev pub text_of : Option (List ℕ) → List ℕ
text_of none = []
text_of (some s) = s

module _ (nice : NiceAddresses) where
  open nice use {Address, unset, set_from_string, set_port, to_string, get_port, max_foundation}

  -- The text and the port can be read back from the address made of them.
  pub record IsCarried (text : List ℕ) (port : ℕ) (made : Address) : Type 0 where
    pub text_back : to_string made ≡ text
    pub port_back : get_port made ≡ port

  abbrev pub made_address : Candidate → Address
  made_address c = set_port c.port (set_from_string (text_of c.address) unset)

  abbrev pub made_base : Candidate → Address
  made_base c = set_base_port nice c.base_port (set_base nice (given c.base_address) unset)

  -- The candidate as it comes back: texts that are NULL or empty become one of the two, and the
  -- foundation is cut to what the buffer holds.
  abbrev pub returned : Candidate → Candidate
  returned c = record c {
    base_address = some (text_of c.base_address);
    foundation = some (take (max_foundation - 1) (text_of c.foundation));
    ufrag = given c.ufrag;
    password = given c.password;
  }

  cut_at :
      (text : List ℕ)
      → strlcpy text (min max_foundation (suc (length text))) ≡ take (max_foundation - 1) text
  cut_at text = elim (Bool-cases (leb max_foundation (suc (length text)))) [
    | inl short ↦ rw short refl
    | inr long ↦
        rw
          (
            long,
            take-of_le (suc (length text) - 1) text (omega arith),
            take-of_le (max_foundation - 1) text (ground arith),
          )
          refl
  ]

  pub copied :
      (o : Option (List ℕ)) → copy_foundation nice (given o) ≡ take (max_foundation - 1) (text_of o)
  copied none = sym (take-of_le (max_foundation - 1) [] (omega arith))
  copied (some []) = sym (take-of_le (max_foundation - 1) [] (omega arith))
  copied (some (b ∷ bs)) = cut_at (b ∷ bs)

  from_to_type : (t : CandidateType) → from_nice_type (to_nice_type t) ≡ some t
  from_to_type CandidateType.host = refl
  from_to_type CandidateType.server_reflexive = refl
  from_to_type CandidateType.peer_reflexive = refl
  from_to_type CandidateType.relay = refl

  from_to_component : (t : ComponentType) → from_nice_component (to_nice_component t) ≡ some t
  from_to_component ComponentType.rtp = refl
  from_to_component ComponentType.rtcp = refl

  from_to_transport : (t : TransportType) → from_nice_transport (to_nice_transport t) ≡ some t
  from_to_transport TransportType.udp = refl
  from_to_transport TransportType.tcp_active = refl
  from_to_transport TransportType.tcp_passive = refl
  from_to_transport TransportType.tcp_so = refl

  module _ (c : Candidate) where
    to_nice-good :
        (b : ℕ) (bs : List ℕ)
        → c.address ≡ some (b ∷ bs)
        → port_is_good c ≡ true
        → to_nice_candidate nice c ≡ some (nice_of nice c (text_of c.address))
    unfolding to_nice_candidate to_nice_at
    to_nice-good b bs e good = rw (e, good) refl

    set_back :
        (n : NiceCandidate Address)
        → n.candidate_type ≡ to_nice_type c.candidate_type
        → n.component_id ≡ to_nice_component c.component_type
        → n.transport ≡ to_nice_transport c.transport_type
        → new_from_nice_candidate nice n
          ≡ some (
              set_properties
                (new c.candidate_type c.component_type)
                (properties_of nice n c.transport_type))
    unfolding new_from_nice_candidate from_nice_at
    set_back n p q r = simp (
      p,
      q,
      r,
      from_to_type c.candidate_type,
      from_to_component c.component_type,
      from_to_transport c.transport_type,
    )

    properties-returned :
        (n : NiceCandidate Address)
        → IsCarried (text_of c.address) c.port n.addr
        → IsCarried (text_of c.base_address) c.base_port n.base_addr
        → some (text_of c.address) ≡ c.address
        → n.priority ≡ c.priority
        → n.foundation ≡ take (max_foundation - 1) (text_of c.foundation)
        → n.username ≡ given c.ufrag
        → n.password ≡ given c.password
        → set_properties
            (new c.candidate_type c.component_type)
            (properties_of nice n c.transport_type)
          ≡ returned c
    unfolding set_properties set_property new init properties_of
    properties-returned n at base e p f u w =
        simp (at.text_back, at.port_back, base.text_back, base.port_back, e, p, f, u, w)

    -- A candidate with an address, and with a port unless it is an active TCP one, goes to libnice and
    -- comes back as it was, if libnice's addresses carry its two texts and ports: only a foundation
    -- that is longer than libnice's buffer is cut, a base address or foundation that is NULL becomes
    -- the empty text, and a user name or password that is empty becomes NULL.
    pub from_nice-to_nice :
        (b : ℕ) (bs : List ℕ)
        → c.address ≡ some (b ∷ bs)
        → port_is_good c ≡ true
        → IsCarried (text_of c.address) c.port (made_address c)
        → IsCarried (text_of c.base_address) c.base_port (made_base c)
        → (n : NiceCandidate Address) × (to_nice_candidate nice c ≡ some n)
          × (new_from_nice_candidate nice n ≡ some (returned c))
    unfolding nice_of
    from_nice-to_nice b bs e good at base = (
      nice_of nice c (text_of c.address),
      to_nice-good b bs e good,
      set_back (nice_of nice c (text_of c.address)) refl refl refl
          ∙ ap some (
              properties-returned (nice_of nice c (text_of c.address)) at base (rw e refl) refl
                (copied c.foundation) refl refl),
    )
