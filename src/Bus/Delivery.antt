-- ===== src/Bus/Delivery.antt =====
-- Where a posted message goes, owr/owr_bus.c and owr/owr_message_origin.c.
use Prim.Native.Nat.{bit_and}
use openwebrtc.Prelude.{
  ℕ, zero, suc, ◌+◌, ◌≡◌, refl, ap, sym, ◌∙◌, subst, Bool, true, false, not, ◌&&◌, Option, none,
  some, List, [], ◌∷◌, ◌++◌, arith, ◌==◌, if◌then◌else◌, inl, inr, Bool-cases, Option-cases, Map,
  lookup, insert, remove, ◌-◌, lookup-insert, lookup-insert_same,
}
use openwebrtc.Outcome.{ok}
use openwebrtc.Bus.{
  Message, OwrBus, World, message_ref, message_unref, push, bus_post_message, post_at, post_all,
  message_new, post_message,
}
use openwebrtc.Bus.Counts.{count}

-- Whether a bus takes messages of a type.
abbrev pub accepts : ℕ → Option OwrBus → Bool
accepts message_type none = false
accepts message_type (some bus) = not (bit_and message_type bus.message_type_mask == 0)

abbrev pub enqueue : ℕ → Option OwrBus → Option OwrBus
enqueue m none = none
enqueue m (some bus) = some (record bus { queue = bus.queue ++ m ∷ [] })

abbrev pub enqueue_times : ℕ → ℕ → Option OwrBus → Option OwrBus
enqueue_times zero m found = found
enqueue_times (suc n) m found = enqueue_times n m (enqueue m found)

abbrev is_there : Option OwrBus → Bool
is_there none = false
is_there (some bus) = true

-- The buses of a set that are still there.
abbrev pub living : List ℕ → Map OwrBus → List ℕ
living [] buses = []
living (b ∷ bs) buses =
    let rest = living bs buses in if is_there (lookup b buses) then b ∷ rest else rest

living_same :
    (bs : List ℕ) (before after : Map OwrBus)
    → ((k : ℕ) → is_there (lookup k after) ≡ is_there (lookup k before))
    → living bs after ≡ living bs before
living_same [] before after h = refl
living_same (b ∷ bs) before after h = ground (arith, h b, living_same bs before after h)

module _ (m kind : ℕ) where
  abbrev Typed : World → Type 0
  Typed w =
      (message : Message) × (lookup m w.messages ≡ some message) × (message.message_type ≡ kind)

  abbrev Reaches : ℕ → World → World → Type 0
  Reaches b w w' =
      (k : ℕ)
      → lookup k w'.buses ≡ (
          if (b == k) && accepts kind (lookup k w.buses)
          then enqueue m (lookup k w.buses)
          else lookup k w.buses)

  module _ (b : ℕ) (bus : OwrBus) (w : World) (there : lookup b w.buses ≡ some bus) where
    found_at : (k : ℕ) → (b == k) ≡ true → lookup k w.buses ≡ some bus
    found_at k h =
        let same : b ≡ k = ground arith in subst (λ j. lookup j w.buses ≡ some bus) same there

    Reaches-skipped : accepts kind (some bus) ≡ false → Reaches b w w
    Reaches-skipped refused k = elim (Bool-cases (b == k)) [
      | inl h ↦ rw (h, found_at k h, refused) refl
      | inr h ↦ rw h refl
    ]

    Reaches-pushed :
        accepts kind (some bus) ≡ true
        → (messages : Map Message) → Reaches b w (push b bus m (record w { messages = messages }))
    Reaches-pushed taken messages k =
        let longer = record bus { queue = bus.queue ++ m ∷ [] } in
        elim (Bool-cases (b == k)) [
          | inl h ↦ rw (lookup-insert b k longer w.buses, h, found_at k h, taken) refl
          | inr h ↦ rw (lookup-insert b k longer w.buses, h) refl
        ]

  post_one :
      (b : ℕ) (bus : OwrBus) (w : World)
      → lookup b w.buses ≡ some bus
      → Typed w
      → (w' : World) × (bus_post_message b bus m w ≡ ok w') × Typed w' × Reaches b w w'
  unfolding bus_post_message message_ref
  post_one b bus w there (message, e, t) =
      let new = record message { ref_count = suc message.ref_count } in
      elim (Bool-cases (bit_and message.message_type bus.message_type_mask == 0)) [
        | inl skip ↦ (
          w,
          rw (e, skip) refl,
          (message, e, t),
          Reaches-skipped b bus w there (rw (sym t, skip) refl),
        )
        | inr wanted ↦ (
          push b bus m (record w { messages = insert m new w.messages }),
          rw (e, wanted) refl,
          (new, lookup-insert_same m new w.messages, t),
          Reaches-pushed b bus w there (rw (sym t, wanted) refl) (insert m new w.messages),
        )
      ]

  accepts_same : (found : Option OwrBus) → accepts kind (enqueue m found) ≡ accepts kind found
  accepts_same none = refl
  accepts_same (some bus) = refl

  there_same : (found : Option OwrBus) → is_there (enqueue m found) ≡ is_there found
  there_same none = refl
  there_same (some bus) = refl

  abbrev pub times_for : ℕ → List ℕ → Option OwrBus → ℕ
  times_for k bs found = if accepts kind found then count k bs else 0

  abbrev reached : ℕ → ℕ → Option OwrBus → Option OwrBus
  reached b k found = if (b == k) && accepts kind found then enqueue m found else found

  reached_there : (b k : ℕ) (found : Option OwrBus) → is_there (reached b k found) ≡ is_there found
  reached_there b k found = elim (Bool-cases ((b == k) && accepts kind found)) [
    | inl h ↦ rw h (there_same found)
    | inr h ↦ rw h refl
  ]

  none_left : (k : ℕ) (found : Option OwrBus) → found ≡ enqueue_times (times_for k [] found) m found
  none_left k found = elim (Bool-cases (accepts kind found)) [
    | inl a ↦ rw a refl
    | inr a ↦ rw a refl
  ]

  times_reached :
      (b k : ℕ) (bs : List ℕ) (found : Option OwrBus)
      → enqueue_times (times_for k bs (reached b k found)) m (reached b k found)
        ≡ enqueue_times (times_for k (b ∷ bs) found) m found
  times_reached b k bs found = elim (Bool-cases (accepts kind found)) [
    | inl a ↦ elim (Bool-cases (b == k)) [
      | inl h ↦
          let one : 1 + count k bs ≡ suc (count k bs) = omega arith in
          rw (a, h, accepts_same found, a, one) refl
      | inr h ↦ let zeroth : 0 + count k bs ≡ count k bs = omega arith in rw (h, a, zeroth) refl
    ]
    | inr a ↦ elim (Bool-cases (b == k)) [ inl h ↦ rw (a, h, a) refl | inr h ↦ rw (h, a) refl ]
  ]

  times_dead :
      (b k : ℕ) (bs : List ℕ) (buses : Map OwrBus)
      → lookup b buses ≡ none
      → times_for k bs (lookup k buses) ≡ times_for k (b ∷ bs) (lookup k buses)
  times_dead b k bs buses dead = elim (Bool-cases (b == k)) [
    | inl h ↦
        let same : b ≡ k = ground arith in rw (subst (λ j. lookup j buses ≡ none) same dead) refl
    | inr h ↦ let zeroth : 0 + count k bs ≡ count k bs = omega arith in rw (h, zeroth) refl
  ]

  posts :
      (bs : List ℕ) (w : World)
      → Typed w
      → (r : List ℕ × World) × (post_all m bs w ≡ ok r)
        × Typed r.1
        × (r.0 ≡ living bs w.buses)
        × ((k : ℕ)
            → lookup k r.1.buses
              ≡ enqueue_times (times_for k bs (lookup k w.buses)) m (lookup k w.buses))
  unfolding post_all post_at
  posts [] w t = (([], w), refl, t, refl, λ k. none_left k (lookup k w.buses))
  posts (b ∷ bs) w t = elim (Option-cases (lookup b w.buses)) [
    | inl dead ↦
        let (r, e, u, l, q) = posts bs w t in
        (
          r,
          rw (dead, e) refl,
          u,
          rw dead l,
          λ k.
              q k ∙ ap (λ n. enqueue_times n m (lookup k w.buses)) (times_dead b k bs w.buses dead),
        )
    | inr (bus, there) ↦
        let (w', posted, t', reach) = post_one b bus w there t in
        let (r, e, u, l, q) = posts bs w' t' in
        (
          (b ∷ r.0, r.1),
          rw (there, posted, e) refl,
          u,
          rw there (
              ap (λ t. b ∷ t)
                (l
                  ∙ living_same bs w.buses w'.buses
                      λ k. ap is_there (reach k) ∙ reached_there b k (lookup k w.buses))),
          λ k.
              q k
              ∙ ap (λ found. enqueue_times (times_for k bs found) m found) (reach k)
              ∙ times_reached b k bs (lookup k w.buses),
        )
  ]

unref_keeps :
    (m : ℕ) (w : World) (message : Message)
    → lookup m w.messages ≡ some message
    → (w' : World) × (message_unref m w ≡ ok w') × (w'.buses ≡ w.buses)
unfolding message_unref
unref_keeps m w message e = elim (Bool-cases (message.ref_count == 1)) [
  | inl last ↦ (record w { messages = remove m w.messages }, rw (e, last) refl, refl)
  | inr more ↦ (
    record w {
      messages = insert m (record message { ref_count = message.ref_count - 1 }) w.messages;
    },
    rw (e, more) refl,
    refl,
  )
]

-- A post never faults. It drops exactly the buses that are gone from the origin's set, and puts the
-- message at the end of the queue of each bus that takes its type, once for each time that the
-- set holds the bus, and leaves every other bus as it was.
pub post_message-delivers :
    (origin message_type sub_type : ℕ) (contents : Option ℕ) (bus_set : List ℕ) (w : World)
    → (r : List ℕ × World) × (post_message origin message_type sub_type contents bus_set w ≡ ok r)
      × (r.0 ≡ living bus_set w.buses)
      × ((k : ℕ)
          → lookup k r.1.buses
            ≡ enqueue_times
                (times_for w.next message_type k bus_set (lookup k w.buses))
                w.next
                (lookup k w.buses))
unfolding post_message message_new
post_message-delivers origin message_type sub_type contents bus_set w =
    let new : Message = record {
      origin = origin;
      message_type = message_type;
      sub_type = sub_type;
      contents = contents;
      ref_count = 1;
    } in
    let (r, e, (message, f, t), l, q) =
      posts w.next message_type bus_set (message_new origin message_type sub_type contents w)
        (new, lookup-insert_same w.next new w.messages, refl) in
    let (w', g, same) = unref_keeps w.next r.1 message f in
    ((r.0, w'), rw (e, g) refl, l, λ k. ap (lookup k) same ∙ q k)
