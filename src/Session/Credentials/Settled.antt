-- ===== src/Session/Credentials/Settled.antt =====
-- The handlers of a credential change end, and leave one user name and password,
-- transport/owr_session.c.
use openwebrtc.Prelude.{
  ℕ, zero, suc, ◌*◌, ◌≡◌, refl, ap, sym, ◌∙◌, Bool, true, false, not, ◌&&◌, ◌||◌, Option, some,
  List, [], ◌∷◌, ◌++◌, ◌==◌, ==_refl, arith, if◌then◌else◌, inl, inr, Bool-cases,
}
use mathlib.Core.Path.{fun_ext}
use mathlib.Core.List.{append-nil, append_assoc}
use openwebrtc.Candidate.{Candidate, Property, set_property, set_properties}
use openwebrtc.Session.{OwrSession, Call}
use openwebrtc.Session.Remote.{member}
use openwebrtc.Session.Credentials.{
  World, count, connections, notifications, store, block, unblock, invoke_change, set_blocked,
  ◌>>=◌, copy_credentials, update_local_credentials, notify, object_set,
}

abbrev pub with_credentials : Option (List ℕ) → Option (List ℕ) → Candidate → Candidate
with_credentials u p c = record c { ufrag = u; password = p }

abbrev credentials : Option (List ℕ) → Option (List ℕ) → List Property
credentials u p = Property.ufrag u ∷ Property.password p ∷ []

set_credentials :
    (u p : Option (List ℕ)) (c : Candidate)
    → set_properties c (credentials u p) ≡ with_credentials u p c
unfolding set_properties set_property
set_credentials u p c = refl

-- A candidate whose handlers are blocked is set, and no more.
object_set-blocked :
    (fuel d : ℕ) (ps : List Property) (w : World)
    → member d w.blocked ≡ true
    → object_set (suc fuel) d ps w ≡ some (store d ps w)
unfolding object_set notify
object_set-blocked fuel d ps w h =
    let e : notifications ps * connections d w ≡ 0 = rw h (omega arith) in
    ap (λ n. notify (object_set fuel) n d (store d ps w)) e

set_blocked-stores :
    (fuel d : ℕ) (ps : List Property) (w : World)
    → set_blocked (object_set (suc fuel)) d ps w ≡ some (store d ps w)
unfolding member
set_blocked-stores fuel d ps w =
    let there : member d (d ∷ w.blocked) ≡ true = rw (==_refl d) refl in
    ap (λ o. o >>= λ w'. some (unblock d w')) (object_set-blocked fuel d ps (block d w) there)
    ∙ rw (==_refl d) refl

abbrev copied : ℕ → Option (List ℕ) → Option (List ℕ) → List ℕ → (ℕ → Candidate) → ℕ → Candidate
copied c u p ds f k = if member k ds && not (k == c) then with_credentials u p (f k) else f k

-- One world is the other, but for its candidates, given pointwise, and its calls.
pub record Becomes (f : ℕ → Candidate) (calls : List Call) (w w' : World) : Type 0 where
  pub candidate_at : (k : ℕ) → w'.candidates k ≡ f k
  pub same_session : w'.session ≡ w.session
  pub same_blocked : w'.blocked ≡ w.blocked
  pub calls_made : w'.calls ≡ calls

==_comm : (a b : ℕ) → (a == b) ≡ (b == a)
==_comm a b = ground arith

module _ (u p : Option (List ℕ)) where
  store_at :
      (d k : ℕ) (w : World)
      → (store d (credentials u p) w).candidates k
        ≡ (if d == k then with_credentials u p (w.candidates k) else w.candidates k)
  store_at d k w = elim (Bool-cases (d == k)) [
    | inl h ↦
        let same : d ≡ k = ground arith in
        rw (==_comm k d, h, set_credentials u p (w.candidates d))
          (ap (λ j. with_credentials u p (w.candidates j)) same)
    | inr h ↦ rw (==_comm k d, h) refl
  ]

  copied_once :
      (is_first later other : Bool) (x : Candidate)
      → (is_first ≡ true → other ≡ true)
      → (let y = if is_first then with_credentials u p x else x in
          if later && other then with_credentials u p y else y)
        ≡ (if (is_first || later) && other then with_credentials u p x else x)
  copied_once true true true x h = refl
  copied_once true false true x h = refl
  copied_once true later false x h = absurd (ground (arith, h refl))
  copied_once false later other x h = refl

module _ (fuel c : ℕ) (u p : Option (List ℕ)) where
  copied-cons :
      (d k : ℕ) (ds : List ℕ) (w : World)
      → (d == c) ≡ false
      → copied c u p ds ((store d (credentials u p) w).candidates) k
        ≡ copied c u p (d ∷ ds) w.candidates k
  unfolding member
  copied-cons d k ds w h =
      ap (λ x. if member k ds && not (k == c) then with_credentials u p x else x)
        (store_at u p d k w)
      ∙ copied_once u p (d == k) (member k ds) (not (k == c)) (w.candidates k) (λ e. ground arith)

  copied-skip :
      (d k : ℕ) (ds : List ℕ) (w : World)
      → (d == c) ≡ true
      → copied c u p ds w.candidates k ≡ copied c u p (d ∷ ds) w.candidates k
  unfolding member
  copied-skip d k ds w h = ground arith

  nothing_copied : (f : ℕ → Candidate) (k : ℕ) → f k ≡ copied c u p [] f k
  unfolding member
  nothing_copied f k = refl

  copy_credentials-copied :
      (ds : List ℕ) (w : World)
      → (w' : World) × (copy_credentials (object_set (suc fuel)) c (credentials u p) ds w ≡ some w')
        × Becomes (copied c u p ds w.candidates) w.calls w w'
  unfolding copy_credentials
  copy_credentials-copied [] w = (
    w,
    refl,
    record {
      candidate_at = λ k. nothing_copied w.candidates k;
      same_session = refl;
      same_blocked = refl;
      calls_made = refl;
    },
  )
  copy_credentials-copied (d ∷ ds) w = elim (Bool-cases (d == c)) [
    | inl h ↦
        let (w', e, b) = copy_credentials-copied ds w in
        (
          w',
          rw h e,
          record {
            candidate_at = λ k. b.candidate_at k ∙ copied-skip d k ds w h;
            same_session = b.same_session;
            same_blocked = b.same_blocked;
            calls_made = b.calls_made;
          },
        )
    | inr h ↦
        let (w', e, b) = copy_credentials-copied ds (store d (credentials u p) w) in
        (
          w',
          rw (h, set_blocked-stores fuel d (credentials u p) w) e,
          record {
            candidate_at = λ k. b.candidate_at k ∙ copied-cons d k ds w h;
            same_session = b.same_session;
            same_blocked = b.same_blocked;
            calls_made = b.calls_made;
          },
        )
  ]

-- The candidates after a handler for c has run: the others of the session have c's credentials.
abbrev pub agreed : ℕ → List ℕ → (ℕ → Candidate) → ℕ → Candidate
agreed c ds f = copied c (f c).ufrag (f c).password ds f

abbrev pub repeat : ℕ → List Call → List Call
repeat zero calls = []
repeat (suc n) calls = calls ++ repeat n calls

-- The same, for a number of runs.
abbrev pub agreed_if : ℕ → ℕ → List ℕ → (ℕ → Candidate) → ℕ → Candidate
agreed_if zero c ds f = f
agreed_if (suc n) c ds f = agreed c ds f

copied_twice :
    (b : Bool) (u p : Option (List ℕ)) (x : Candidate)
    → (let y = if b then with_credentials u p x else x in if b then with_credentials u p y else y)
      ≡ (if b then with_credentials u p x else x)
copied_twice true u p x = refl
copied_twice false u p x = refl

module _ (fuel c : ℕ) where
  update_local_credentials-agreed :
      (w : World)
      → (w' : World) × (update_local_credentials (object_set (suc fuel)) c w ≡ some w')
        × Becomes
            (agreed c w.session.local_candidates w.candidates)
            (w.calls ++ invoke_change w.session.on_local_candidate_change c)
            w
            w'
  unfolding update_local_credentials
  update_local_credentials-agreed w =
      let (w', e, b) =
        copy_credentials-copied fuel c (w.candidates c).ufrag (w.candidates c).password
          w.session.local_candidates w in
      let told = w'.calls ++ invoke_change w'.session.on_local_candidate_change c in
      (
        record w' { calls = told },
        rw e refl,
        record {
          candidate_at = b.candidate_at;
          same_session = b.same_session;
          same_blocked = b.same_blocked;
          calls_made =
              ap (λ l. l ++ invoke_change w'.session.on_local_candidate_change c) b.calls_made
              ∙ ap (λ (s : OwrSession). w.calls ++ invoke_change s.on_local_candidate_change c)
                  b.same_session;
        },
      )

  agreed_own : (ds : List ℕ) (f : ℕ → Candidate) → agreed c ds f c ≡ f c
  agreed_own ds f = elim (Bool-cases (member c ds)) [
    | inl h ↦ rw (==_refl c, h) refl
    | inr h ↦ rw (==_refl c, h) refl
  ]

  agreed_again :
      (ds : List ℕ) (f : ℕ → Candidate) (k : ℕ) → agreed c ds (agreed c ds f) k ≡ agreed c ds f k
  agreed_again ds f k =
      ap (λ (x : Candidate). copied c x.ufrag x.password ds (agreed c ds f) k) (agreed_own ds f)
      ∙ copied_twice (member k ds && not (k == c)) (f c).ufrag (f c).password (f k)

  agreed_if_again :
      (n : ℕ) (ds : List ℕ) (f : ℕ → Candidate) (k : ℕ)
      → agreed_if n c ds (agreed c ds f) k ≡ agreed c ds f k
  agreed_if_again zero ds f k = refl
  agreed_if_again (suc n) ds f k = agreed_again ds f k

  notify-agreed :
      (n : ℕ) (w : World)
      → (w' : World) × (notify (object_set (suc fuel)) n c w ≡ some w')
        × Becomes
            (agreed_if n c w.session.local_candidates w.candidates)
            (w.calls ++ repeat n (invoke_change w.session.on_local_candidate_change c))
            w
            w'
  unfolding notify
  notify-agreed zero w = (
    w,
    refl,
    record {
      candidate_at = λ k. refl;
      same_session = refl;
      same_blocked = refl;
      calls_made = sym (append-nil w.calls);
    },
  )
  notify-agreed (suc n) w =
      let (w1, e, b) = update_local_credentials-agreed w in
      let (w', e', b') = notify-agreed n w1 in
      (
        w',
        rw e e',
        record {
          candidate_at = λ k.
              b'.candidate_at k
              ∙ ap (λ (s : OwrSession). agreed_if n c s.local_candidates w1.candidates k)
                  b.same_session
              ∙ ap (λ f. agreed_if n c w.session.local_candidates f k) (fun_ext b.candidate_at)
              ∙ agreed_if_again n w.session.local_candidates w.candidates k;
          same_session = b'.same_session ∙ b.same_session;
          same_blocked = b'.same_blocked ∙ b.same_blocked;
          calls_made =
              b'.calls_made
              ∙ ap
                  (λ (s : OwrSession).
                    w1.calls ++ repeat n (invoke_change s.on_local_candidate_change c))
                  b.same_session
              ∙ ap (λ l. l ++ repeat n (invoke_change w.session.on_local_candidate_change c))
                  b.calls_made
              ∙ append_assoc w.calls (invoke_change w.session.on_local_candidate_change c) _;
        },
      )

-- With no handler blocked, setting properties of a candidate ends, with calls at most two deep. Each notification of a user
-- name or password reaches the session once for each time that it lists the candidate as local:
-- then all its other local candidates have the candidate's new user name and password and are
-- otherwise as they were, and the session's closure is called once for each. Nothing else changes,
-- no handler stays blocked, and with no such notification only the candidate changes.
pub object_set-settles :
    (fuel c : ℕ) (ps : List Property) (w : World)
    → w.blocked ≡ []
    → let ds = w.session.local_candidates in
      let times = notifications ps * count c ds in
      (w' : World) × (object_set (suc (suc fuel)) c ps w ≡ some w')
      × Becomes
          (agreed_if times c ds (store c ps w).candidates)
          (w.calls ++ repeat times (invoke_change w.session.on_local_candidate_change c))
          w
          w'
unfolding object_set member
object_set-settles fuel c ps w free =
    let times : notifications ps * connections c w
        ≡ notifications ps * count c w.session.local_candidates =
      ap (λ bs. notifications ps * (if member c bs then 0 else count c w.session.local_candidates))
        free in
    let (w', e, b) =
      notify-agreed fuel c (notifications ps * count c w.session.local_candidates) (store c ps w) in
    (
      w',
      ap (λ n. notify (object_set (suc fuel)) n c (store c ps w)) times ∙ e,
      record {
        candidate_at = b.candidate_at;
        same_session = b.same_session;
        same_blocked = b.same_blocked;
        calls_made = b.calls_made;
      },
    )
