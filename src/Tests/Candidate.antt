-- ===== src/Tests/Candidate.antt =====
-- A candidate that goes to libnice and comes back, with addresses that are a text and a port.
use openwebrtc.Prelude.{
  ℕ, ◌≤◌, ◌≡◌, ◌≢◌, ◌⊎◌, ◌↔◌, refl, false, none, some, List, [], ◌∷◌, take, arith,
}
use openwebrtc.Candidate.{
  CandidateType, ComponentType, TransportType, Candidate, NiceAddresses, NiceCandidate,
  NiceCandidateType, NiceComponentType, NiceTransport,
}
use openwebrtc.Candidate.Convert.{
  is_tcp_active, nice_of, to_nice_at, to_nice_candidate, from_nice_at, new_from_nice_candidate,
}
use openwebrtc.Candidate.Convert.RoundTrip.{text_of, returned, from_nice-to_nice}
use openwebrtc.Candidate.Convert.Rejects.{to_nice_candidate-refused, to_nice_candidate-fits}

abbrev pub plain : NiceAddresses
plain = record {
  Address = List ℕ × ℕ;
  unset = ([], 0);
  set_from_string = λ s a. (s, a.1);
  set_port = λ n a. (a.0, n);
  to_string = λ a. a.0;
  get_port = λ a. a.1;
  max_foundation = 4;
}

abbrev pub local_host : Candidate
local_host = record {
  candidate_type = CandidateType.server_reflexive;
  component_type = ComponentType.rtcp;
  transport_type = TransportType.tcp_passive;
  address = some (b'1' ∷ b':' ∷ b'2' ∷ []);
  port = 5000;
  base_address = none;
  base_port = 0;
  priority = 7;
  foundation = some (b'a' ∷ b'b' ∷ b'c' ∷ b'd' ∷ b'e' ∷ []);
  ufrag = some [];
  password = some (b'p' ∷ []);
}

from_nice-to_nice_example :
    (n : NiceCandidate (List ℕ × ℕ)) × (to_nice_candidate plain local_host ≡ some n)
    × (new_from_nice_candidate plain n ≡ some (returned plain local_host))
from_nice-to_nice_example =
    from_nice-to_nice plain local_host b'1' (b':' ∷ b'2' ∷ []) refl refl
      (record { text_back = refl; port_back = refl })
      (record { text_back = refl; port_back = refl })

abbrev portless : Candidate
portless = record local_host { port = 0 }

refused_test : (to_nice_candidate plain portless ≡ none) ↔ (
    (text_of portless.address ≡ [])
    ⊎ ((portless.port ≡ 0) × (is_tcp_active TransportType.tcp_passive ≡ false)))
refused_test = to_nice_candidate-refused plain portless

abbrev sent : NiceCandidate (List ℕ × ℕ)
sent = record {
  candidate_type = NiceCandidateType.server_reflexive;
  transport = NiceTransport.tcp_passive;
  component_id = NiceComponentType.rtcp;
  addr = (b'1' ∷ b':' ∷ b'2' ∷ [], 5000);
  base_addr = ([], 0);
  priority = 7;
  foundation = b'a' ∷ b'b' ∷ b'c' ∷ [];
  username = none;
  password = some (b'p' ∷ []);
}

sent_test : to_nice_candidate plain local_host ≡ some sent
unfolding to_nice_candidate to_nice_at nice_of
sent_test = refl

to_nice_candidate-fits_example :
    (4 ≤ 4)
    × (sent.foundation ≡ take 3 (text_of local_host.foundation))
    × (sent.username ≢ some [])
    × (sent.password ≢ some [])
to_nice_candidate-fits_example =
    to_nice_candidate-fits plain local_host sent (omega arith) sent_test

-- A candidate with libnice's `other` transport is not taken.
other_test : new_from_nice_candidate plain (record sent { transport = NiceTransport.other }) ≡ none
unfolding new_from_nice_candidate from_nice_at
other_test = refl
