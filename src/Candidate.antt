-- ===== src/Candidate.antt =====
-- ICE candidates, transport/owr_candidate.c: the object and its translation to and from the
-- candidate of libnice. A text is the list of its bytes without the final NUL, and NULL is `none`.
-- The address functions of libnice and the size of its foundation buffer are parameters; its
-- enumerations have the names that the code uses, and `other` for any further value.
pub mod Convert
use openwebrtc.Prelude.{
  ℕ, suc, ◌+◌, ◌-◌, Bool, Option, none, some, List, [], ◌∷◌, take, length, leb, ◌==◌, if◌then◌else◌,
}

pub data CandidateType : Type 0 where
  host server_reflexive peer_reflexive relay : CandidateType

pub data ComponentType : Type 0 where
  rtp rtcp : ComponentType

pub data TransportType : Type 0 where
  udp tcp_active tcp_passive tcp_so : TransportType

pub record Candidate : Type 0 where
  pub candidate_type : CandidateType
  pub component_type : ComponentType
  pub transport_type : TransportType
  pub address : Option (List ℕ)
  pub port : ℕ
  pub base_address : Option (List ℕ)
  pub base_port : ℕ
  pub priority : ℕ
  pub foundation : Option (List ℕ)
  pub ufrag : Option (List ℕ)
  pub password : Option (List ℕ)

-- A property of the class with the value that is set.
pub data Property : Type 0 where
  candidate_type : CandidateType → Property
  component_type : ComponentType → Property
  transport_type : TransportType → Property
  address base_address foundation ufrag password : Option (List ℕ) → Property
  port base_port priority : ℕ → Property
  other : Property

unfoldable pub set_property : Candidate → Property → Candidate
set_property c (Property.candidate_type t) = record c { candidate_type = t }
set_property c (Property.component_type t) = record c { component_type = t }
set_property c (Property.transport_type t) = record c { transport_type = t }
set_property c (Property.address s) = record c { address = s }
set_property c (Property.port n) = record c { port = n }
set_property c (Property.base_address s) = record c { base_address = s }
set_property c (Property.base_port n) = record c { base_port = n }
set_property c (Property.priority n) = record c { priority = n }
set_property c (Property.foundation s) = record c { foundation = s }
set_property c (Property.ufrag s) = record c { ufrag = s }
set_property c (Property.password s) = record c { password = s }
set_property c Property.other = c

-- g_object_set with a list of properties.
unfoldable pub set_properties : Candidate → List Property → Candidate
unfolding set_property
set_properties c [] = c
set_properties c (p ∷ ps) = set_properties (set_property c p) ps

-- owr_candidate_init: every text is empty, none is NULL.
unfoldable pub init : Candidate
init = record {
  candidate_type = CandidateType.host;
  component_type = ComponentType.rtp;
  transport_type = TransportType.udp;
  address = some [];
  port = 0;
  base_address = some [];
  base_port = 0;
  priority = 0;
  foundation = some [];
  ufrag = some [];
  password = some [];
}

unfoldable pub new : CandidateType → ComponentType → Candidate
unfolding set_properties init
new kind component =
    set_properties init (Property.candidate_type kind ∷ Property.component_type component ∷ [])

pub data NiceCandidateType : Type 0 where
  host server_reflexive peer_reflexive relayed other : NiceCandidateType

pub data NiceComponentType : Type 0 where
  rtp rtcp other : NiceComponentType

pub data NiceTransport : Type 0 where
  udp tcp_active tcp_passive tcp_so other : NiceTransport

-- What the code uses of libnice's addresses: `unset` is the address of nice_candidate_new.
pub record NiceAddresses : Type 1 where
  pub Address : Type 0
  pub unset : Address
  pub set_from_string : List ℕ → Address → Address
  pub set_port : ℕ → Address → Address
  pub to_string : Address → List ℕ
  pub get_port : Address → ℕ
  pub max_foundation : ℕ  -- NICE_CANDIDATE_MAX_FOUNDATION

-- The fields of a NiceCandidate that the code reads and writes.
pub record NiceCandidate (A : Type 0) : Type 0 where
  pub candidate_type : NiceCandidateType
  pub transport : NiceTransport
  pub component_id : NiceComponentType
  pub addr : A
  pub base_addr : A
  pub priority : ℕ
  pub foundation : List ℕ
  pub username : Option (List ℕ)
  pub password : Option (List ℕ)

abbrev pub to_nice_type : CandidateType → NiceCandidateType
to_nice_type CandidateType.host = NiceCandidateType.host
to_nice_type CandidateType.server_reflexive = NiceCandidateType.server_reflexive
to_nice_type CandidateType.peer_reflexive = NiceCandidateType.peer_reflexive
to_nice_type CandidateType.relay = NiceCandidateType.relayed

abbrev pub to_nice_component : ComponentType → NiceComponentType
to_nice_component ComponentType.rtp = NiceComponentType.rtp
to_nice_component ComponentType.rtcp = NiceComponentType.rtcp

abbrev pub to_nice_transport : TransportType → NiceTransport
to_nice_transport TransportType.udp = NiceTransport.udp
to_nice_transport TransportType.tcp_active = NiceTransport.tcp_active
to_nice_transport TransportType.tcp_passive = NiceTransport.tcp_passive
to_nice_transport TransportType.tcp_so = NiceTransport.tcp_so

abbrev pub from_nice_type : NiceCandidateType → Option CandidateType
from_nice_type NiceCandidateType.host = some CandidateType.host
from_nice_type NiceCandidateType.server_reflexive = some CandidateType.server_reflexive
from_nice_type NiceCandidateType.peer_reflexive = some CandidateType.peer_reflexive
from_nice_type NiceCandidateType.relayed = some CandidateType.relay
from_nice_type NiceCandidateType.other = none

abbrev pub from_nice_component : NiceComponentType → Option ComponentType
from_nice_component NiceComponentType.rtp = some ComponentType.rtp
from_nice_component NiceComponentType.rtcp = some ComponentType.rtcp
from_nice_component NiceComponentType.other = none

abbrev pub from_nice_transport : NiceTransport → Option TransportType
from_nice_transport NiceTransport.udp = some TransportType.udp
from_nice_transport NiceTransport.tcp_active = some TransportType.tcp_active
from_nice_transport NiceTransport.tcp_passive = some TransportType.tcp_passive
from_nice_transport NiceTransport.tcp_so = some TransportType.tcp_so
from_nice_transport NiceTransport.other = none
