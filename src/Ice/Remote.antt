-- ===== src/Ice/Remote.antt =====
-- Remote candidates and local credentials on their way to libnice, transport/owr_transport_agent.c.
-- `objects` gives the candidate at an address, and `nice` libnice's addresses.
pub mod Forwarding
use openwebrtc.Prelude.{
  ℕ, suc, Bool, true, false, Option, none, some, List, [], ◌∷◌, ◌++◌, ◌==◌, if◌then◌else◌, Map,
  lookup,
}
use openwebrtc.Candidate.{Candidate, NiceAddresses, NiceCandidate, NiceComponentType}
use openwebrtc.Candidate.Convert.{to_nice_candidate, new_from_nice_candidate}
use openwebrtc.Outcome.{Outcome, ok, assertion, require, ◌>>=◌}
use openwebrtc.Session.{OwrSession, on_candidate_gathering_done}
use openwebrtc.Session.Remote.{get_candidate_pair}

-- get_stream_id: the first stream of the session, 0 if there is none.
unfoldable pub get_stream_id : ℕ → Map ℕ → ℕ
get_stream_id session [] = 0
get_stream_id session ((stream, other) ∷ rest) =
    let further = get_stream_id session rest in if other == session then stream else further

-- The calls of libnice, whose candidates have addresses in A.
pub data RemoteCall (A : Type 0) : Type 0 where
  set_selected_remote_candidate : (stream : ℕ) → NiceCandidate A → RemoteCall A
  set_remote_credentials : (stream : ℕ) → (username password : List ℕ) → RemoteCall A
  set_remote_candidates : (stream : ℕ) → NiceComponentType → List (NiceCandidate A) → RemoteCall A
  set_local_credentials : (stream : ℕ) → (ufrag password : Option (List ℕ)) → RemoteCall A
  set_selected_pair :
      (stream component : ℕ) → (local_foundation remote_foundation : List ℕ) → RemoteCall A

-- The variables of the loop of on_new_remote_candidate, and what it has selected.
pub record Collected (A : Type 0) : Type 0 where
  pub username : Option (List ℕ)
  pub password : Option (List ℕ)
  pub selected : List (NiceCandidate A)
  pub nice_cands_rtp : List (NiceCandidate A)
  pub nice_cands_rtcp : List (NiceCandidate A)

-- `if (!username) username = …`.
abbrev pub or_first : Option (List ℕ) → Option (List ℕ) → Option (List ℕ)
or_first none new = new
or_first (some old) new = some old

abbrev pub is_rtp : NiceComponentType → Bool
is_rtp NiceComponentType.rtp = true
is_rtp _ = false

module _ (nice : NiceAddresses) where
  open nice use {Address}

  abbrev nothing_collected : Collected Address
  nothing_collected = record {
    username = none;
    password = none;
    selected = [];
    nice_cands_rtp = [];
    nice_cands_rtcp = [];
  }

  -- One candidate; one that cannot be translated is passed over.
  unfoldable pub collect_one :
      (forced : Bool) → Option (NiceCandidate Address) → Collected Address → Collected Address
  collect_one forced none v = v
  collect_one forced (some n) v =
      let named = record v {
        username = or_first v.username n.username;
        password = or_first v.password n.password;
      } in
      if forced
      then record named { selected = v.selected ++ n ∷ [] }
      else (if is_rtp n.component_id
          then record named { nice_cands_rtp = v.nice_cands_rtp ++ n ∷ [] }
          else record named { nice_cands_rtcp = v.nice_cands_rtcp ++ n ∷ [] })

  module _ (objects : ℕ → Candidate) where
    unfoldable pub collect : (forced : Bool) → List ℕ → Collected Address → Collected Address
    collect forced [] v = v
    collect forced (c ∷ cs) v =
        collect forced cs (collect_one forced (to_nice_candidate nice (objects c)) v)

  abbrev pub selections : ℕ → List (NiceCandidate Address) → List (RemoteCall Address)
  selections stream [] = []
  selections stream (n ∷ ns) = set_selected_remote_candidate stream n ∷ selections stream ns

  abbrev pub credentials_call : ℕ → Option (List ℕ) → Option (List ℕ) → List (RemoteCall Address)
  credentials_call stream (some u) (some p) = set_remote_credentials stream u p ∷ []
  credentials_call stream _ _ = []

  abbrev pub candidates_call :
      ℕ → NiceComponentType → List (NiceCandidate Address) → List (RemoteCall Address)
  candidates_call stream component [] = []
  candidates_call stream component (n ∷ ns) = set_remote_candidates stream component (n ∷ ns) ∷ []

  unfoldable pub tell : ℕ → Collected Address → List (RemoteCall Address)
  tell stream v =
      selections stream v.selected
      ++ (credentials_call stream v.username v.password
          ++ (candidates_call stream NiceComponentType.rtp v.nice_cands_rtp
              ++ candidates_call stream NiceComponentType.rtcp v.nice_cands_rtcp))

  module _ (objects : ℕ → Candidate) (streams : Map ℕ) (session : ℕ) where
    unfoldable pub on_new_remote_candidate :
        (forced : Bool) → OwrSession → List (RemoteCall Address)
    on_new_remote_candidate forced s =
        let stream = get_stream_id session streams in
        let listed = if forced then s.forced_remote_candidates else s.remote_candidates in
        if stream == 0 then [] else tell stream (collect objects forced listed nothing_collected)

    unfoldable pub on_local_candidate_change : ℕ → List (RemoteCall Address)
    on_local_candidate_change c =
        let stream = get_stream_id session streams in
        if stream == 0
        then []
        else set_local_credentials stream (objects c).ufrag (objects c).password ∷ []

  -- emit_new_candidate: what libnice's candidate lacks is filled in by the credentials of the stream,
  -- and the candidate is translated for the session's signal on-new-candidate.
  unfoldable pub emit_new_candidate :
      (ufrag password : Option (List ℕ)) → NiceCandidate Address → Option Candidate
  emit_new_candidate ufrag password n =
      new_from_nice_candidate nice
        (record n { username = or_first n.username ufrag; password = or_first n.password password })

  -- One component of emit_candidate_gathering_done: a forced pair is selected by its foundations.
  abbrev pub force_pair :
      (objects : ℕ → Candidate)
      → (stream component : ℕ) → Option ℕ × Option ℕ
      → Outcome (List (RemoteCall Address))
  force_pair objects stream component (some l, some r) =
      require (objects l).foundation assertion >>= λ lf.
      require (objects r).foundation assertion >>= λ rf.
      ok (set_selected_pair stream component lf rf ∷ [])
  force_pair objects stream component _ = ok []

  unfoldable pub force_pairs :
      (objects : ℕ → Candidate) → ℕ → List ℕ → OwrSession → Outcome (List (RemoteCall Address))
  unfolding get_candidate_pair
  force_pairs objects stream [] s = ok []
  force_pairs objects stream (i ∷ is) s =
      force_pair objects stream i (get_candidate_pair i s) >>= λ first.
      force_pairs objects stream is s >>= λ rest. ok (first ++ rest)

  -- emit_candidate_gathering_done, for a session with a stream.
  unfoldable pub emit_candidate_gathering_done :
      (objects : ℕ → Candidate) → ℕ → OwrSession → Outcome (OwrSession × List (RemoteCall Address))
  emit_candidate_gathering_done objects stream s =
      let s' = on_candidate_gathering_done s in
      force_pairs objects stream (0 ∷ 1 ∷ 2 ∷ []) s' >>= λ calls. ok (s', calls)
