-- ===== src/Session/Remote.antt =====
-- Remote candidates and forced pairs, transport/owr_session.c.
use openwebrtc.Prelude.{
  ℕ, Bool, true, false, not, ◌&&◌, ◌||◌, Option, none, some, List, [], ◌∷◌, ◌++◌, ◌==◌, ltb,
  if◌then◌else◌, lookup, insert,
}
use openwebrtc.Candidate.{ComponentType}
use openwebrtc.Session.{OwrSession, Call, remote_candidate, component_max}

-- g_slist_find.
unfoldable pub member : ℕ → List ℕ → Bool
member c [] = false
member c (x ∷ xs) = x == c || member c xs

pub data Refusal : Type 0 where
  already_added is_local bad_component already_forced remote_not_added local_not_added : Refusal

-- What a method of this file comes to: the new session and its calls, or a warning and no change.
pub data Result : Type 0 where
  done : OwrSession → List Call → Result
  refused : Refusal → Result

abbrev pub is_rtcp : ComponentType → Bool
is_rtcp ComponentType.rtcp = true
is_rtcp ComponentType.rtp = false

-- schedule_add_remote_candidate: whether add_remote_candidate is scheduled.
unfoldable pub schedule_add_remote_candidate : (rtcp_mux : Bool) → ComponentType → Bool
schedule_add_remote_candidate rtcp_mux component = not (is_rtcp component && rtcp_mux)

abbrev pub invoke_remote : Option ℕ → Bool → List Call
invoke_remote none forced = []
invoke_remote (some f) forced = remote_candidate f forced ∷ []

abbrev pub listed : Bool → OwrSession → List ℕ
listed forced s = if forced then s.forced_remote_candidates else s.remote_candidates

abbrev pub append_to : Bool → ℕ → OwrSession → OwrSession
append_to forced c s =
    if forced
    then record s { forced_remote_candidates = s.forced_remote_candidates ++ c ∷ [] }
    else record s { remote_candidates = s.remote_candidates ++ c ∷ [] }

unfoldable pub add_remote_candidate : ℕ → Bool → OwrSession → Result
add_remote_candidate c forced s =
    if member c (listed forced s)
    then refused already_added
    else (if member c s.local_candidates
        then refused is_local
        else done (append_to forced c s) (invoke_remote s.on_remote_candidate forced))

abbrev pub is_empty : List ℕ → Bool
is_empty [] = true
is_empty (x ∷ xs) = false

unfoldable pub add_candidate_pair : ℕ → ℕ → ℕ → OwrSession → Result
add_candidate_pair component l r s =
    if not (ltb component component_max)
    then refused bad_component
    else if not (is_empty s.forced_remote_candidates)
    then refused already_forced
    else if not (member r s.remote_candidates)
    then refused remote_not_added
    else if member r s.local_candidates
    then refused is_local
    else if not (member l s.local_candidates)
    then refused local_not_added
    else done
        (record s {
          local_candidate = insert component l s.local_candidate;
          remote_candidate = insert component r s.remote_candidate;
        })
        []

-- _owr_session_get_candidate_pair, for a component below OWR_COMPONENT_MAX.
unfoldable pub get_candidate_pair : ℕ → OwrSession → Option ℕ × Option ℕ
get_candidate_pair component s =
    (lookup component s.local_candidate, lookup component s.remote_candidate)
