-- ===== src/Bus/Finalize.antt =====
-- The end of a bus, owr/owr_bus.c: what is queued reaches the application before the bus is gone.
use openwebrtc.Prelude.{
  ℕ, ◌-◌, ◌≤◌, ◌<◌, ◌≡◌, refl, ap, sym, ◌∙◌, subst, false, Option, none, some, List, [], ◌∷◌, ◌++◌,
  map, arith, ◌==◌, ==_refl, if◌then◌else◌, inl, inr, Bool-cases, Option-cases, Map, lookup, insert,
  remove, lookup-insert, lookup-remove, lookup-insert_same, lookup-remove_same,
}
use mathlib.Core.List.{append-nil, append_assoc, map-append}
use openwebrtc.Outcome.{ok}
use openwebrtc.Bus.{
  Message, OwrBus, Call, World, message_unref, invoke, handle_message, pop_at, drain, finalize_at,
  finalize,
}
use openwebrtc.Bus.Counts.{
  Counted, count, total, one_more, unref-Counted, unref_to, taken-Counted, held_there,
}
use openwebrtc.Bus.Posting.{none_held}

-- A message without its reference count.
pub record Content : Type 0 where
  pub origin : ℕ
  pub message_type : ℕ
  pub sub_type : ℕ
  pub contents : Option ℕ

abbrev pub content : Message → Content
content m = record {
  origin = m.origin;
  message_type = m.message_type;
  sub_type = m.sub_type;
  contents = m.contents;
}

abbrev pub call_content : Call → ℕ × Content
call_content c = (c.callback_func, content c.message)

abbrev told_of : Option ℕ → Option Message → List (ℕ × Content)
told_of (some f) (some message) = (f, content message) ∷ []
told_of _ _ = []

-- What a callback is to be told for the messages of a queue.
abbrev pub told : Option ℕ → List ℕ → Map Message → List (ℕ × Content)
told f [] messages = []
told f (m ∷ ms) messages = told_of f (lookup m messages) ++ told f ms messages

-- The messages that are left are as they were, but for their counts.
abbrev IsLeft : Map Message → Map Message → Type 0
IsLeft before after =
    (k : ℕ) (y : Message)
    → lookup k after ≡ some y
    → (x : Message) × (lookup k before ≡ some x) × (content x ≡ content y)

module _ (m : ℕ) (message : Message) (w : World) where
  buses-unref_to : (unref_to m message w).buses ≡ w.buses
  buses-unref_to = elim (Bool-cases (message.ref_count == 1)) [
    | inl h ↦ rw h refl
    | inr h ↦ rw h refl
  ]

  calls-unref_to : (unref_to m message w).calls ≡ w.calls
  calls-unref_to = elim (Bool-cases (message.ref_count == 1)) [
    | inl h ↦ rw h refl
    | inr h ↦ rw h refl
  ]

  IsLeft-unref_to :
      lookup m w.messages ≡ some message → IsLeft w.messages (unref_to m message w).messages
  IsLeft-unref_to e k y f = elim (Bool-cases (message.ref_count == 1)) [
    | inl h ↦
        let g : (if m == k then none else lookup k w.messages) ≡ some y =
          sym (lookup-remove m k w.messages) ∙ rw h at f in
        elim (Bool-cases (m == k)) [
          | inl same ↦ absurd (ground arith)
          | inr other ↦ (y, ground arith, refl)
        ]
    | inr h ↦
        let less = record message { ref_count = message.ref_count - 1 } in
        let g : (if m == k then some less else lookup k w.messages) ≡ some y =
          sym (lookup-insert m k less w.messages) ∙ rw h at f in
        elim (Bool-cases (m == k)) [
          | inl same ↦
              let to : m ≡ k = ground arith in
              let at : less ≡ y = ground arith in
              (message, subst (λ j. lookup j w.messages ≡ some message) to e, ap content at)
          | inr other ↦ (y, ground arith, refl)
        ]
  ]

told-invoke :
    (f : Option ℕ) (message : Message) (calls : List Call)
    → map call_content (calls ++ invoke f message)
      ≡ map call_content calls ++ told_of f (some message)
told-invoke none message calls = map-append call_content calls []
told-invoke (some f) message calls = map-append call_content calls _

module _ (held : ℕ → ℕ) where
  -- One round: the message is handled and the callback told of it.
  round :
      (b m : ℕ) (bus : OwrBus) (rest : List ℕ) (w : World)
      → lookup b w.buses ≡ some bus
      → bus.queue ≡ m ∷ rest
      → Counted held w
      → (w' : World) × (pop_at b bus (m ∷ rest) w ≡ ok w')
        × Counted held w'
        × (w'.buses ≡ insert b (record bus { queue = rest }) w.buses)
        × (map call_content w'.calls
            ≡ map call_content w.calls ++ told_of bus.callback_func (lookup m w.messages))
        × IsLeft w.messages w'.messages
  unfolding pop_at handle_message message_unref
  round b m bus rest w there q v =
      let taken = record w { buses = insert b (record bus { queue = rest }) w.buses } in
      let v' = taken-Counted b m bus bus there rest q v in
      let (message, e) = held_there m v' (ground arith) in
      let called = record taken { calls = w.calls ++ invoke bus.callback_func message } in
      let v2 : Counted (one_more m held) called = record {
        counts = v'.counts;
        alive = v'.alive;
        fresh = v'.fresh;
      } in
      let done = unref_to m message called in
      (
        done,
        rw e refl,
        unref-Counted m v2 message e,
        buses-unref_to m message called,
        ap (map call_content) (calls-unref_to m message called)
            ∙ told-invoke bus.callback_func message w.calls
            ∙ ap (λ o. map call_content w.calls ++ told_of bus.callback_func o) (sym e),
        IsLeft-unref_to m message called e,
      )

count-le-total :
    (m b : ℕ) (bus : OwrBus) (buses : Map OwrBus)
    → lookup b buses ≡ some bus
    → count m bus.queue ≤ total m buses
unfolding lookup
count-le-total m b bus [] e = absurd (ground arith)
count-le-total m b bus ((k, other) ∷ rest) e = elim (Bool-cases (k == b)) [
  | inl h ↦
      let same : other ≡ bus = ground arith in
      let queues : count m other.queue ≡ count m bus.queue =
        ap (λ (x : OwrBus). count m x.queue) same in
      omega (arith, queues)
  | inr h ↦
      let further : lookup b rest ≡ some bus = ground arith in
      omega (arith, count-le-total m b bus rest further)
]

-- A message that is queued is there.
queued_there :
    {held : ℕ → ℕ} {w : World} (m b : ℕ) (bus : OwrBus)
    → Counted held w
    → lookup b w.buses ≡ some bus
    → 0 < count m bus.queue
    → (y : Message) × (lookup m w.messages ≡ some y)
queued_there {held} {w} m b bus v there h = elim (Option-cases (lookup m w.messages)) [
  | inl gone ↦ absurd (ground (arith, v.counts m, count-le-total m b bus w.buses there))
  | inr found ↦ found
]

one_told :
    (f : Option ℕ) (y x : Message) → content y ≡ content x → told_of f (some y) ≡ told_of f (some x)
one_told none y x same = refl
one_told (some g) y x same = ap (λ c. (g, c) ∷ []) same

told-left :
    (f : Option ℕ) (ms : List ℕ) (before after : Map Message)
    → ((m : ℕ) → 0 < count m ms → (y : Message) × (lookup m after ≡ some y))
    → IsLeft before after
    → told f ms after ≡ told f ms before
told-left f [] before after there left = refl
told-left f (m ∷ ms) before after there left =
    let (y, e) = there m (rw (==_refl m) (omega arith)) in
    let (x, g, same) = left m y e in
    let kept = told-left f ms before after (λ k h. there k (omega arith)) left in
    rw (e, g, kept) (ap (λ l. l ++ told f ms before) (one_told f y x (sym same)))

drain-told :
    {held : ℕ → ℕ} (b : ℕ) (ms : List ℕ) (bus : OwrBus) (w : World)
    → lookup b w.buses ≡ some bus
    → bus.queue ≡ ms
    → Counted held w
    → (w' : World) × (drain b bus ms w ≡ ok w')
      × (map call_content w'.calls
          ≡ map call_content w.calls ++ told bus.callback_func ms w.messages)
      × ((k : ℕ) → (b == k) ≡ false → lookup k w'.buses ≡ lookup k w.buses)
      × IsLeft w.messages w'.messages
unfolding drain
drain-told b [] bus w there q v = (w, refl, sym (append-nil _), λ k h. refl, λ k y e. (y, e, refl))
drain-told {held} b (m ∷ rest) bus w there q v =
    let less = record bus { queue = rest } in
    let (w1, e, v1, buses, calls, left) = round held b m bus rest w there q v in
    let there1 : lookup b w1.buses ≡ some less =
      ap (lookup b) buses ∙ lookup-insert_same b less w.buses in
    let (w2, e2, calls2, others, left2) = drain-told b rest less w1 there1 refl v1 in
    (
      w2,
      rw e e2,
      calls2
          ∙ ap (λ l. l ++ told bus.callback_func rest w1.messages) calls
          ∙ append_assoc (map call_content w.calls)
              (told_of bus.callback_func (lookup m w.messages)) _
          ∙ ap
              (λ l.
                map call_content w.calls ++ (told_of bus.callback_func (lookup m w.messages) ++ l))
              (told-left bus.callback_func rest w.messages w1.messages
                (λ k h. queued_there k b less v1 there1 h) left),
      λ k h. others k h ∙ ap (lookup k) buses ∙ lookup-insert b k less w.buses ∙ rw h refl,
      λ k y f.
          let (x, g, same) = left2 k y f in
          let (x', g', same') = left k x g in (x', g', same' ∙ same),
    )

-- With the references to each message counted by the places in queues that hold it, the end of a bus
-- is reached, and before it everything that is queued on the bus is handled: its
-- callback, if it has one, is called once for each queued message, in the order of the queue, with
-- the origin, the type, the sub-type and the data that were posted. The bus is then gone and the
-- other buses are as they were.
pub finalize-told :
    (b : ℕ) (bus : OwrBus) (w : World)
    → lookup b w.buses ≡ some bus
    → Counted none_held w
    → (w' : World) × (finalize b w ≡ ok w')
      × (map call_content w'.calls
          ≡ map call_content w.calls ++ told bus.callback_func bus.queue w.messages)
      × (lookup b w'.buses ≡ none)
      × ((k : ℕ) → (b == k) ≡ false → lookup k w'.buses ≡ lookup k w.buses)
unfolding finalize finalize_at
finalize-told b bus w there v =
    let (w1, e, calls, others, left) = drain-told b bus.queue bus w there refl v in
    (
      record w1 { buses = remove b w1.buses },
      rw (there, e) refl,
      calls,
      lookup-remove_same b w1.buses,
      λ k h. lookup-remove b k w1.buses ∙ rw h (others k h),
    )
