-- ===== src/Session.antt =====
-- The base of media and data sessions, transport/owr_session.c: candidates, their pairs, the DTLS
-- texts, the ports and the ICE state. A candidate is known by its address, a closure by a number, a
-- text is the list of its bytes, NULL is `none`. A method returns the new session and its calls.
pub mod Aggregate
pub mod Credentials
pub mod Events
pub mod Remote
use openwebrtc.Prelude.{
  ℕ, ◌<◌, Bool, true, false, not, ◌&&◌, ◌||◌, Option, none, some, List, [], ◌∷◌, ◌++◌, drop, ◌==◌,
  ltb, if◌then◌else◌, Map,
}

pub data IceState : Type 0 where
  disconnected gathering connecting connected ready failed : IceState

pub record OwrSession : Type 0 where
  pub dtls_client_mode : Bool
  pub dtls_certificate : Option (List ℕ)
  pub dtls_key : Option (List ℕ)
  pub dtls_peer_certificate : Option (List ℕ)
  pub local_candidates : List ℕ
  pub remote_candidates : List ℕ
  pub forced_remote_candidates : List ℕ
  pub local_candidate : Map ℕ  -- by component
  pub remote_candidate : Map ℕ
  pub gathering_done : Bool
  pub on_remote_candidate : Option ℕ
  pub on_local_candidate_change : Option ℕ
  pub ice_state : IceState
  pub rtp_ice_state : IceState
  pub rtcp_ice_state : IceState
  pub rtp_port : ℕ
  pub rtcp_port : ℕ

-- What a method calls: a closure with its argument beside the session, or the handlers of a property.
pub data Call : Type 0 where
  remote_candidate : (closure : ℕ) → (forced : Bool) → Call
  local_candidate_change : (closure : ℕ) → (candidate : ℕ) → Call
  notify_ice_state : IceState → Call
  notify_peer_certificate : Call

abbrev pub component_rtp : ℕ
component_rtp = 1

abbrev pub component_rtcp : ℕ
component_rtcp = 2

abbrev pub component_max : ℕ
component_max = 3

-- "(auto)", the default of both DTLS texts.
abbrev pub auto : List ℕ
auto = b'(' ∷ b'a' ∷ b'u' ∷ b't' ∷ b'o' ∷ b')' ∷ []

-- owr_session_init, on memory that GObject has set to zero.
unfoldable pub init : OwrSession
init = record {
  dtls_client_mode = false;
  dtls_certificate = some auto;
  dtls_key = some auto;
  dtls_peer_certificate = none;
  local_candidates = [];
  remote_candidates = [];
  forced_remote_candidates = [];
  local_candidate = [];
  remote_candidate = [];
  gathering_done = false;
  on_remote_candidate = none;
  on_local_candidate_change = none;
  ice_state = IceState.disconnected;
  rtp_ice_state = IceState.disconnected;
  rtcp_ice_state = IceState.disconnected;
  rtp_port = 0;
  rtcp_port = 0;
}

abbrev pub is_prefix : List ℕ → List ℕ → Bool
is_prefix [] text = true
is_prefix (b ∷ bs) [] = false
is_prefix (b ∷ bs) (c ∷ cs) = b == c && is_prefix bs cs

abbrev null_text : List ℕ
null_text = b'n' ∷ b'u' ∷ b'l' ∷ b'l' ∷ []

-- g_strstr_len(text, 5, "null"): the word stands at the first or at the second byte.
abbrev pub has_null : List ℕ → Bool
has_null text = is_prefix null_text text || is_prefix null_text (drop 1 text)

-- A DTLS text that is empty or says "null" switches DTLS off.
unfoldable pub dtls_text : Option (List ℕ) → Option (List ℕ)
dtls_text none = none
dtls_text (some []) = none
dtls_text (some (b ∷ bs)) = if has_null (b ∷ bs) then none else some (b ∷ bs)

-- A property of the class with the value that is set; the other two can only be read.
pub data Property : Type 0 where
  dtls_client_mode : Bool → Property
  dtls_certificate dtls_key : Option (List ℕ) → Property
  other : Property

unfoldable pub set_property : OwrSession → Property → OwrSession
unfolding dtls_text
set_property s (Property.dtls_client_mode b) = record s { dtls_client_mode = b }
set_property s (Property.dtls_certificate t) = record s { dtls_certificate = dtls_text t }
set_property s (Property.dtls_key t) = record s { dtls_key = dtls_text t }
set_property s Property.other = s

-- owr_session_on_new_candidate; the handlers that it connects are in Session.Credentials.
unfoldable pub on_new_candidate : ℕ → OwrSession → OwrSession
on_new_candidate c s = record s { local_candidates = s.local_candidates ++ c ∷ [] }

unfoldable pub on_candidate_gathering_done : OwrSession → OwrSession
on_candidate_gathering_done s = record s { gathering_done = true }

unfoldable pub set_local_port : ℕ → ℕ → OwrSession → OwrSession
set_local_port component port s =
    if ltb component component_max
    then if component == component_rtp
      then record s { rtp_port = port }
      else record s { rtcp_port = port }
    else s

unfoldable pub get_local_port : ℕ → OwrSession → ℕ
get_local_port component s =
    if ltb component component_max
    then if component == component_rtp then s.rtp_port else s.rtcp_port
    else 0

unfoldable pub set_dtls_peer_certificate : Option (List ℕ) → OwrSession → OwrSession × List Call
set_dtls_peer_certificate t s =
    (record s { dtls_peer_certificate = t }, notify_peer_certificate ∷ [])

-- The methods on closures return the closures that they release too, and whether each is also
-- invalidated: a new closure only releases the old one, clear_closures does both.
abbrev pub released : Bool → Option ℕ → List (ℕ × Bool)
released invalidated none = []
released invalidated (some f) = (f, invalidated) ∷ []

unfoldable pub set_on_remote_candidate : ℕ → OwrSession → OwrSession × List (ℕ × Bool)
set_on_remote_candidate f s =
    (record s { on_remote_candidate = some f }, released false s.on_remote_candidate)

unfoldable pub set_on_local_candidate_change : ℕ → OwrSession → OwrSession × List (ℕ × Bool)
set_on_local_candidate_change f s =
    (record s { on_local_candidate_change = some f }, released false s.on_local_candidate_change)

unfoldable pub clear_closures : OwrSession → OwrSession × List (ℕ × Bool)
clear_closures s = (
  record s { on_remote_candidate = none; on_local_candidate_change = none },
  released true s.on_remote_candidate ++ released true s.on_local_candidate_change,
)
