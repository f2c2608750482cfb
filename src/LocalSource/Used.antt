-- ===== src/LocalSource/Used.antt =====
-- That the pipeline of a source lives as long as it has users, local/owr_local_media_source.c.
use openwebrtc.Prelude.{
  ℕ, suc, ◌-◌, ◌<◌, ◌≡◌, refl, sym, subst, Bool, true, false, Option, none, some, List, [], ◌∷◌,
  ◌==◌, arith, inl, inr, Bool-cases,
}
use openwebrtc.Outcome.{Outcome, ok}
use openwebrtc.LocalSource.{
  MediaType, SourceType, LocalMediaSource, is_known, is_audio, new_pipeline, request_source_default,
  request_source, release_source, shutdown_media_source, run_task, set_volume, set_mute,
}
use openwebrtc.LocalSource.Events.{
  Event, requested, released, task_run, volume_set, mute_set, requested_only, step, run,
  users_after, users,
}

-- The pipeline, for a number of users: there is one if there are users, the tee has a pad for each,
-- and a pipeline without users is about to be shut down.
abbrev pub Alive : Option Bool → Option ℕ → (tasks n : ℕ) → Type 0
Alive none none tasks n = n ≡ 0
Alive (some false) (some pads) tasks n = (pads ≡ n) × (n ≡ 0 → 0 < tasks)
Alive _ _ _ _ = ⊥

pub record IsAlive (n : ℕ) (s : LocalMediaSource) : Type 0 where
  pub known : is_known s.media_type s.source_type ≡ true
  pub no_element : s.source_volume ≡ none
  pub alive : Alive s.source_bin s.source_tee s.tasks n

abbrev plain : MediaType → SourceType → ℕ → Bool → Option Bool → Option ℕ → ℕ → LocalMediaSource
plain m t v b bin tee tasks = record {
  media_type = m;
  source_type = t;
  volume = v;
  mute = b;
  source_volume = none;
  source_bin = bin;
  source_tee = tee;
  tasks = tasks;
}

abbrev Goes : ℕ → Outcome LocalMediaSource → Type 0
Goes n r = (s' : LocalMediaSource) × (r ≡ ok s') × IsAlive n s'

module _ (m : MediaType) (t : SourceType) (v : ℕ) (b : Bool) (known : is_known m t ≡ true) where
  first_request :
      (k : MediaType) (h : is_known k t ≡ true) (tasks : ℕ)
      → Goes 1 (
          requested_only
            (request_source_default (new_pipeline true (plain k t v b none none tasks))))
  unfolding request_source_default new_pipeline
  first_request MediaType.unknown h tasks = absurd (ground arith)
  first_request MediaType.audio h tasks =
      (_, refl, record { known = h; no_element = refl; alive = (refl, λ z. absurd (ground arith)) })
  first_request MediaType.video h tasks =
      (_, refl, record { known = h; no_element = refl; alive = (refl, λ z. absurd (ground arith)) })

  next_request :
      (k : MediaType) (h : is_known k t ≡ true) (tasks pads n : ℕ)
      → pads ≡ n
      → Goes
          (suc n)
          (requested_only (request_source_default (plain k t v b (some false) (some pads) tasks)))
  unfolding request_source_default
  next_request MediaType.unknown h tasks pads n e = absurd (ground arith)
  next_request MediaType.audio h tasks pads n e = (
    _,
    refl,
    record { known = h; no_element = refl; alive = (ground arith, λ z. absurd (ground arith)) },
  )
  next_request MediaType.video h tasks pads n e = (
    _,
    refl,
    record { known = h; no_element = refl; alive = (ground arith, λ z. absurd (ground arith)) },
  )

  IsAlive-requested :
      (bin : Option Bool) (tee : Option ℕ) (tasks n : ℕ)
      → Alive bin tee tasks n
      → Goes (suc n) (requested_only (request_source true (plain m t v b bin tee tasks)))
  unfolding request_source
  IsAlive-requested none none tasks n a = rw (known, a) (first_request m known tasks)
  IsAlive-requested none (some p) tasks n a = elim a [ ]
  IsAlive-requested (some true) tee tasks n a = elim a [ ]
  IsAlive-requested (some false) none tasks n a = elim a [ ]
  IsAlive-requested (some false) (some p) tasks n a = next_request m known tasks p n a.0

  IsAlive-released :
      (bin : Option Bool) (tee : Option ℕ) (tasks n : ℕ)
      → Alive bin tee tasks n
      → IsAlive (n - 1) (release_source (plain m t v b bin tee tasks))
  unfolding release_source
  IsAlive-released none none tasks n a = record {
    known = known;
    no_element = refl;
    alive = ground arith;
  }
  IsAlive-released none (some p) tasks n a = elim a [ ]
  IsAlive-released (some true) tee tasks n a = elim a [ ]
  IsAlive-released (some false) none tasks n a = elim a [ ]
  IsAlive-released (some false) (some p) tasks n a = elim (Bool-cases (p == 0)) [
    | inl h ↦ rw h (record {
      known = known;
      no_element = refl;
      alive = (ground (arith, a.0), λ z. a.1 (ground (arith, a.0)));
    })
    | inr h ↦ rw h (record {
      known = known;
      no_element = refl;
      alive = (
        ground (arith, a.0),
        λ z. (let e : (p - 1 == 0) ≡ true = ground (arith, a.0, z) in rw e (omega arith)),
      );
    })
  ]

  IsAlive-task :
      (bin : Option Bool) (tee : Option ℕ) (tasks n : ℕ)
      → Alive bin tee tasks n
      → Goes n (run_task (plain m t v b bin tee tasks))
  unfolding run_task shutdown_media_source
  IsAlive-task none none tasks n a = elim (Bool-cases (tasks == 0)) [
    | inl h ↦ rw h (_, refl, record { known = known; no_element = refl; alive = a })
    | inr h ↦ rw h (_, refl, record { known = known; no_element = refl; alive = a })
  ]
  IsAlive-task none (some p) tasks n a = elim a [ ]
  IsAlive-task (some true) tee tasks n a = elim a [ ]
  IsAlive-task (some false) none tasks n a = elim a [ ]
  IsAlive-task (some false) (some p) tasks n a = elim (Bool-cases (tasks == 0)) [
    | inl h ↦ rw h (_, refl, record { known = known; no_element = refl; alive = a })
    | inr h ↦ elim (Bool-cases (p == 0)) [
      | inl z ↦
          rw (h, z)
            (_, refl, record { known = known; no_element = refl; alive = ground (arith, a.0) })
      | inr z ↦
          rw (h, z)
            (
              _,
              refl,
              record {
                known = known;
                no_element = refl;
                alive = (a.0, λ w. absurd (ground (arith, a.0)));
              },
            )
    ]
  ]

module _ (m : MediaType) (t : SourceType) (known : is_known m t ≡ true) where
  IsAlive-volume :
      (v w : ℕ) (b : Bool) (bin : Option Bool) (tee : Option ℕ) (tasks n : ℕ)
      → Alive bin tee tasks n
      → Goes n (set_volume w (plain m t v b bin tee tasks))
  unfolding set_volume
  IsAlive-volume v w b bin tee tasks n a = elim (Bool-cases (is_audio m)) [
    | inl h ↦ rw h (_, refl, record { known = known; no_element = refl; alive = a })
    | inr h ↦ rw h (_, refl, record { known = known; no_element = refl; alive = a })
  ]

  IsAlive-mute :
      (v : ℕ) (w b : Bool) (bin : Option Bool) (tee : Option ℕ) (tasks n : ℕ)
      → Alive bin tee tasks n
      → Goes n (set_mute w (plain m t v b bin tee tasks))
  unfolding set_mute
  IsAlive-mute v w b bin tee tasks n a = elim (Bool-cases (is_audio m)) [
    | inl h ↦ rw h (_, refl, record { known = known; no_element = refl; alive = a })
    | inr h ↦ rw h (_, refl, record { known = known; no_element = refl; alive = a })
  ]

plain_of :
    (s : LocalMediaSource)
    → s.source_volume ≡ none
    → s ≡ plain s.media_type s.source_type s.volume s.mute s.source_bin s.source_tee s.tasks
plain_of s h = λ i. record s { source_volume = h i }

IsAlive-plain :
    (e : Event) (n : ℕ) (m : MediaType) (t : SourceType) (v : ℕ) (b : Bool)
    → (bin : Option Bool) (tee : Option ℕ) (tasks : ℕ) → is_known m t ≡ true
    → Alive bin tee tasks n
    → Goes (users_after n e) (step (plain m t v b bin tee tasks) e)
unfolding step
IsAlive-plain requested n m t v b bin tee tasks k a = IsAlive-requested m t v b k bin tee tasks n a
IsAlive-plain released n m t v b bin tee tasks k a =
    (_, refl, IsAlive-released m t v b k bin tee tasks n a)
IsAlive-plain task_run n m t v b bin tee tasks k a = IsAlive-task m t v b k bin tee tasks n a
IsAlive-plain (volume_set w) n m t v b bin tee tasks k a =
    IsAlive-volume m t k v w b bin tee tasks n a
IsAlive-plain (mute_set w) n m t v b bin tee tasks k a = IsAlive-mute m t k v w b bin tee tasks n a

IsAlive-step :
    (e : Event) (n : ℕ) (s : LocalMediaSource) → IsAlive n s → Goes (users_after n e) (step s e)
IsAlive-step e n s a =
    subst (λ s'. Goes (users_after n e) (step s' e)) (sym (plain_of s a.no_element))
      (IsAlive-plain e n s.media_type s.source_type s.volume s.mute s.source_bin s.source_tee
        s.tasks a.known a.alive)

-- A source of a known type that sets its own volume: whatever the order in which it is requested and
-- released, in which the main loop makes the scheduled calls, and in which the volume is set, no
-- fault occurs; there is a pipeline as long as there are users, its tee has a pad for each, and once
-- it has none, a call that shuts it down is scheduled until there is no pipeline.
pub run-IsAlive :
    (es : List Event) (n : ℕ) (s : LocalMediaSource)
    → IsAlive n s
    → (s' : LocalMediaSource) × (run s es ≡ ok s') × IsAlive (users n es) s'
unfolding run
run-IsAlive [] n s a = (s, refl, a)
run-IsAlive (e ∷ es) n s a =
    let (s', p, a') = IsAlive-step e n s a in
    let (s'', q, a'') = run-IsAlive es (users_after n e) s' a' in (s'', rw p q, a'')
