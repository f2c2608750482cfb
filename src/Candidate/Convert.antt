-- ===== src/Candidate/Convert.antt =====
-- _owr_candidate_to_nice_candidate and _owr_candidate_new_from_nice_candidate of
-- transport/owr_candidate.c. Both return NULL, `none` here, where a check fails.
pub mod RoundTrip
pub mod Rejects
use openwebrtc.Prelude.{
  ℕ, suc, ◌-◌, Bool, true, false, ◌||◌, not, ◌&&◌, Option, none, some, List, [], ◌∷◌, take, length,
  leb, ◌==◌, if◌then◌else◌,
}
use openwebrtc.Candidate.{
  CandidateType, ComponentType, TransportType, Candidate, Property, set_properties, new,
  NiceAddresses, NiceCandidate, NiceCandidateType, NiceComponentType, NiceTransport, to_nice_type,
  to_nice_component, to_nice_transport, from_nice_type, from_nice_component, from_nice_transport,
}

-- `s && strlen(s) > 0`, on which a text counts as given: an empty one counts as NULL.
abbrev pub given : Option (List ℕ) → Option (List ℕ)
given none = none
given (some []) = none
given (some (b ∷ bs)) = some (b ∷ bs)

abbrev pub is_tcp_active : TransportType → Bool
is_tcp_active TransportType.tcp_active = true
is_tcp_active _ = false

-- g_strlcpy: at most size - 1 bytes, and then the NUL.
abbrev pub strlcpy : List ℕ → ℕ → List ℕ
strlcpy source size = take (size - 1) source

abbrev pub min : ℕ → ℕ → ℕ
min a b = if leb a b then a else b

abbrev pub port_is_good : Candidate → Bool
port_is_good c = not (c.port == 0) || is_tcp_active c.transport_type

module _ (nice : NiceAddresses) where
  open nice use {Address, unset, set_from_string, set_port, to_string, get_port, max_foundation}

  -- The base address, set where there is a text, and its port, set where it is not 0.
  abbrev pub set_base : Option (List ℕ) → Address → Address
  set_base none a = a
  set_base (some s) a = set_from_string s a

  abbrev pub set_base_port : ℕ → Address → Address
  set_base_port n a = if n == 0 then a else set_port n a

  -- The foundation's buffer holds an empty text at first.
  abbrev pub copy_foundation : Option (List ℕ) → List ℕ
  copy_foundation none = []
  copy_foundation (some s) = strlcpy s (min max_foundation (suc (length s)))

  unfoldable pub nice_of : Candidate → List ℕ → NiceCandidate Address
  nice_of c text = record {
    candidate_type = to_nice_type c.candidate_type;
    transport = to_nice_transport c.transport_type;
    component_id = to_nice_component c.component_type;
    addr = set_port c.port (set_from_string text unset);
    base_addr = set_base_port c.base_port (set_base (given c.base_address) unset);
    priority = c.priority;
    foundation = copy_foundation (given c.foundation);
    username = given c.ufrag;
    password = given c.password;
  }

  unfoldable pub to_nice_at : Candidate → Option (List ℕ) → Option (NiceCandidate Address)
  to_nice_at c none = none
  to_nice_at c (some text) = if port_is_good c then some (nice_of c text) else none

  unfoldable pub to_nice_candidate : Candidate → Option (NiceCandidate Address)
  to_nice_candidate c = to_nice_at c (given c.address)

  -- The properties that are set on the new object, in the order of the code.
  unfoldable pub properties_of : NiceCandidate Address → TransportType → List Property
  properties_of n transport =
      Property.transport_type transport
      ∷ Property.address (some (to_string n.addr))
      ∷ Property.port (get_port n.addr)
      ∷ Property.base_address (some (to_string n.base_addr))
      ∷ Property.base_port (get_port n.base_addr)
      ∷ Property.priority n.priority
      ∷ Property.foundation (some n.foundation)
      ∷ Property.ufrag n.username
      ∷ Property.password n.password
      ∷ []

  unfoldable pub from_nice_at :
      NiceCandidate Address
      → Option CandidateType
      → Option ComponentType
      → Option TransportType
      → Option Candidate
  from_nice_at n (some kind) (some component) (some transport) =
      some (set_properties (new kind component) (properties_of n transport))
  from_nice_at n _ _ _ = none

  unfoldable pub new_from_nice_candidate : NiceCandidate Address → Option Candidate
  new_from_nice_candidate n =
      from_nice_at n (from_nice_type n.candidate_type) (from_nice_component n.component_id)
        (from_nice_transport n.transport)
