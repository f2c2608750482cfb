-- ===== src/Session/Credentials.antt =====
-- Local candidates share one user name and password, transport/owr_session.c: the handlers that
-- owr_session_on_new_candidate connects to notify::ufrag and notify::password call
-- update_local_credentials, which sets both on the other candidates. A session's candidates are all
-- there as long as it is. `fuel` bounds the depth of the calls; without it the result is `none`.
pub mod Settled
use openwebrtc.Prelude.{
  ℕ, zero, suc, ◌+◌, ◌*◌, Bool, true, false, Option, none, some, List, [], ◌∷◌, ◌++◌, ◌==◌,
  if◌then◌else◌,
}
use openwebrtc.Candidate.{Candidate, Property, set_properties}
use openwebrtc.Session.{OwrSession, Call, local_candidate_change}
use openwebrtc.Session.Remote.{member}

pub record World : Type 0 where
  pub session : OwrSession
  pub candidates : ℕ → Candidate
  pub blocked : List ℕ  -- whose handlers are blocked, once for each block
  pub calls : List Call

infixl 5 ◌>>=◌
abbrev pub ◌>>=◌ : Option World → (World → Option World) → Option World
none >>= f = none
some w >>= f = f w

abbrev pub count : ℕ → List ℕ → ℕ
count c [] = 0
count c (x ∷ xs) = (if x == c then 1 else 0) + count c xs

-- How often update_local_credentials is connected to a candidate and not blocked.
abbrev pub connections : ℕ → World → ℕ
connections c w = if member c w.blocked then 0 else count c w.session.local_candidates

abbrev pub sets_ufrag : List Property → Bool
sets_ufrag [] = false
sets_ufrag (Property.ufrag s ∷ ps) = true
sets_ufrag (p ∷ ps) = sets_ufrag ps

abbrev pub sets_password : List Property → Bool
sets_password [] = false
sets_password (Property.password s ∷ ps) = true
sets_password (p ∷ ps) = sets_password ps

-- g_object_set notifies of each property once, after all have been set.
abbrev pub notifications : List Property → ℕ
notifications ps = (if sets_ufrag ps then 1 else 0) + (if sets_password ps then 1 else 0)

abbrev pub store : ℕ → List Property → World → World
store c ps w = record w {
  candidates = λ k. if k == c then set_properties (w.candidates c) ps else w.candidates k;
}

abbrev pub block : ℕ → World → World
block c w = record w { blocked = c ∷ w.blocked }

abbrev pub without_first : ℕ → List ℕ → List ℕ
without_first c [] = []
without_first c (x ∷ xs) = if x == c then xs else x ∷ without_first c xs

abbrev pub unblock : ℕ → World → World
unblock c w = record w { blocked = without_first c w.blocked }

abbrev pub invoke_change : Option ℕ → ℕ → List Call
invoke_change none c = []
invoke_change (some f) c = local_candidate_change f c ∷ []

-- `set` is g_object_set on one of the other candidates.
module _ (set : ℕ → List Property → World → Option World) where
  abbrev pub set_blocked : ℕ → List Property → World → Option World
  set_blocked d ps w = set d ps (block d w) >>= λ w'. some (unblock d w')

  -- The loop over the local candidates.
  unfoldable pub copy_credentials : ℕ → List Property → List ℕ → World → Option World
  copy_credentials c ps [] w = some w
  copy_credentials c ps (d ∷ ds) w =
      let skipped = copy_credentials c ps ds w in
      let copied = set_blocked d ps w >>= copy_credentials c ps ds in
      if d == c then skipped else copied

  unfoldable pub update_local_credentials : ℕ → World → Option World
  update_local_credentials c w =
      let credentials =
        Property.ufrag (w.candidates c).ufrag ∷ Property.password (w.candidates c).password ∷ [] in
      copy_credentials c credentials w.session.local_candidates w >>= λ w'.
      some (record w' { calls = w'.calls ++ invoke_change w'.session.on_local_candidate_change c })

  unfoldable pub notify : ℕ → ℕ → World → Option World
  notify zero c w = some w
  notify (suc n) c w = update_local_credentials c w >>= notify n c

-- g_object_set on a candidate, with the handlers that it calls.
unfoldable pub object_set : ℕ → ℕ → List Property → World → Option World
unfolding set_properties
object_set zero c ps w = none
object_set (suc fuel) c ps w =
    notify (object_set fuel) (notifications ps * connections c w) c (store c ps w)
