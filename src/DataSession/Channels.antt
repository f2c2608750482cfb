-- ===== src/DataSession/Channels.antt =====
-- Which channels a data session takes, transport/owr_data_session.c.
use openwebrtc.Prelude.{
  ℕ, ◌≡◌, refl, ap, ◌∙◌, subst, Bool, true, false, ◌||◌, Option, none, some, List, [], ◌∷◌, ◌++◌,
  ◌==◌, if◌then◌else◌, arith, inl, inr, Bool-cases, Option-cases, lookup, insert, lookup-insert,
}
use mathlib.Core.Path.{fun_ext}
use openwebrtc.DataSession.{
  DataSession, Effect, channel_ref, channel_unref, channel_added, invoke_added, add_at,
  add_data_channel, agent_view,
}

-- Channels with their ids, added one after the other.
abbrev pub add_all : List (ℕ × ℕ) → DataSession → DataSession × List Effect
add_all [] s = (s, [])
add_all ((c, id) ∷ rest) s =
    let r = add_data_channel c id s in let later = add_all rest (r.0) in (later.0, r.1 ++ later.1)

abbrev pub first_with : ℕ → List (ℕ × ℕ) → Option ℕ
first_with id [] = none
first_with id ((c, other) ∷ rest) =
    let further = first_with id rest in if other == id then some c else further

abbrev pub or_else : Option ℕ → Option ℕ → Option ℕ
or_else (some x) o = some x
or_else none o = o

-- The channels that the closures are told of.
abbrev pub announced : List Effect → List ℕ
announced [] = []
announced (channel_added f c ∷ es) = c ∷ announced es
announced (e ∷ es) = announced es

abbrev pub is_taken : Option ℕ → Bool
is_taken none = false
is_taken (some c) = true

-- The channels whose id is new: neither `used` nor that of a channel before.
abbrev pub with_new_id : (ℕ → Bool) → List (ℕ × ℕ) → List ℕ
with_new_id used [] = []
with_new_id used ((c, id) ∷ rest) =
    let skipped = with_new_id used rest in
    let taken = c ∷ with_new_id (λ k. id == k || used k) rest in if used id then skipped else taken

module _ (c id : ℕ) (s : DataSession) where
  add-taken :
      (old : ℕ)
      → lookup id s.data_channels ≡ some old
      → add_data_channel c id s ≡ (s, channel_ref c ∷ channel_unref c ∷ [])
  unfolding add_data_channel add_at
  add-taken old e = rw e refl

  abbrev extended : DataSession
  extended = record s { data_channels = insert id c s.data_channels }

  add-new :
      lookup id s.data_channels ≡ none
      → add_data_channel c id s ≡ (extended, channel_ref c ∷ invoke_added s.on_datachannel_added c)
  unfolding add_data_channel add_at
  add-new e = rw e refl

  used_then :
      (k : ℕ)
      → is_taken (lookup k (insert id c s.data_channels))
        ≡ (id == k || is_taken (lookup k s.data_channels))
  used_then k = ap is_taken (lookup-insert id k c s.data_channels) ∙ ground arith

  first_taken :
      (old k : ℕ) (rest : List (ℕ × ℕ))
      → lookup id s.data_channels ≡ some old
      → or_else (lookup k s.data_channels) (first_with k rest)
        ≡ or_else (lookup k s.data_channels) (first_with k ((c, id) ∷ rest))
  first_taken old k rest e = elim (Bool-cases (id == k)) [
    | inl h ↦
        let same : id ≡ k = ground arith in
        let f : lookup k s.data_channels ≡ some old =
          subst (λ j. lookup j s.data_channels ≡ some old) same e in
        rw f refl
    | inr h ↦ rw h refl
  ]

  first_new :
      (k : ℕ) (rest : List (ℕ × ℕ))
      → lookup id s.data_channels ≡ none
      → or_else (lookup k (insert id c s.data_channels)) (first_with k rest)
        ≡ or_else (lookup k s.data_channels) (first_with k ((c, id) ∷ rest))
  first_new k rest e = elim (Bool-cases (id == k)) [
    | inl h ↦
        let same : id ≡ k = ground arith in
        let f : lookup k s.data_channels ≡ none =
          subst (λ j. lookup j s.data_channels ≡ none) same e in
        rw (lookup-insert id k c s.data_channels, h, f) refl
    | inr h ↦ rw (lookup-insert id k c s.data_channels, h) refl
  ]

or_else-none : (o : Option ℕ) → o ≡ or_else o none
or_else-none none = refl
or_else-none (some x) = refl

told_one :
    (o : Option ℕ) (f c : ℕ) (es : List Effect)
    → o ≡ some f
    → announced (invoke_added o c ++ es) ≡ c ∷ announced es
told_one o f c es e = rw e refl

-- Channels are added to a session with a closure. The agent then finds under each id the channel
-- that the session had there, or else the first one that was added with the id, and the closure was
-- told of just the channels whose id was new, in their order.
pub add_all-first :
    (adds : List (ℕ × ℕ)) (s : DataSession) (f : ℕ)
    → s.on_datachannel_added ≡ some f
    → ((id : ℕ)
        → lookup id (agent_view ((add_all adds s).0)).data_channels
          ≡ or_else (lookup id s.data_channels) (first_with id adds))
      × (announced ((add_all adds s).1)
          ≡ with_new_id (λ k. is_taken (lookup k s.data_channels)) adds)
add_all-first [] s f e = (λ id. or_else-none (lookup id s.data_channels), refl)
add_all-first ((c, id) ∷ rest) s f e = elim (Option-cases (lookup id s.data_channels)) [
  | inr (old, there) ↦
      let (found, told) = add_all-first rest s f e in
      (
        λ k. rw (add-taken c id s old there) (found k ∙ first_taken c id s old k rest there),
        rw (add-taken c id s old there, there) told,
      )
  | inl free ↦
      let (found, told) = add_all-first rest (extended c id s) f e in
      (
        λ k. rw (add-new c id s free) (found k ∙ first_new c id s k rest free),
        rw (add-new c id s free, free)
            (told_one s.on_datachannel_added f c _ e
              ∙ ap (λ l. c ∷ l)
                  (told ∙ ap (λ used. with_new_id used rest) (fun_ext (used_then c id s)))),
      )
]
