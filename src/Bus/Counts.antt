-- ===== src/Bus/Counts.antt =====
-- The reference count of each message is the number of times that it is queued,
-- owr/owr_bus.c and owr/owr_message_origin.c.
use openwebrtc.Prelude.{
  ℕ, suc, ◌+◌, ◌-◌, ◌≤◌, ◌<◌, ◌≡◌, ap, Option, none, some, List, [], ◌∷◌, ◌++◌, arith, ◌==◌,
  if◌then◌else◌, inl, inr, Bool-cases, Option-cases, Map, lookup, insert, remove, lookup-insert,
  lookup-remove,
}
use openwebrtc.Bus.{Message, OwrBus, World, push}

abbrev pub count : ℕ → List ℕ → ℕ
count m [] = 0
count m (k ∷ ks) = (if k == m then 1 else 0) + count m ks

-- How often a message is queued on all buses.
abbrev pub total : ℕ → Map OwrBus → ℕ
total m [] = 0
total m ((b, bus) ∷ rest) = count m bus.queue + total m rest

abbrev pub count_of : Option Message → ℕ
count_of none = 0
count_of (some message) = message.ref_count

-- `held` says how many references functions that run hold themselves.
pub record Counted (held : ℕ → ℕ) (w : World) : Type 0 where
  pub counts : (m : ℕ) → count_of (lookup m w.messages) ≡ total m w.buses + held m
  pub alive :
      (m : ℕ) (message : Message) → lookup m w.messages ≡ some message → 0 < message.ref_count
  pub fresh : (m : ℕ) → w.next ≤ m → lookup m w.messages ≡ none

abbrev pub one_more : ℕ → (ℕ → ℕ) → ℕ → ℕ
one_more m held k = if m == k then suc (held k) else held k

count-append :
    (m : ℕ) (ks : List ℕ) (j : ℕ) → count m (ks ++ j ∷ []) ≡ count m ks + (if j == m then 1 else 0)
count-append m [] j = omega arith
count-append m (k ∷ ks) j = omega (arith, count-append m ks j)

total-insert :
    (m b : ℕ) (old new : OwrBus) (buses : Map OwrBus)
    → lookup b buses ≡ some old
    → total m (insert b new buses) + count m old.queue ≡ total m buses + count m new.queue
unfolding lookup insert
total-insert m b old new [] e = absurd (ground arith)
total-insert m b old new ((k, bus) ∷ rest) e = elim (Bool-cases (k == b)) [
  | inl h ↦
      let same : bus ≡ old = ground arith in
      let queues : count m bus.queue ≡ count m old.queue =
        ap (λ (x : OwrBus). count m x.queue) same in
      rw h (omega (arith, queues))
  | inr h ↦
      let further : lookup b rest ≡ some old = ground arith in
      rw h (omega (arith, total-insert m b old new rest further))
]

module _ {held : ℕ → ℕ} {w : World} (v : Counted held w) (m : ℕ) (message : Message)
    (e : lookup m w.messages ≡ some message) where
  pub ref-Counted : Counted (one_more m held) (record w {
    messages = insert m (record message { ref_count = suc message.ref_count }) w.messages;
  })
  ref-Counted = record {
    counts = λ k. ground (
      arith,
      lookup-insert m k (record message { ref_count = suc message.ref_count }) w.messages,
      v.counts k,
    );
    alive = λ k other f. ground (
      arith,
      lookup-insert m k (record message { ref_count = suc message.ref_count }) w.messages,
      v.alive k other,
    );
    fresh = λ k h. ground (
      arith,
      lookup-insert m k (record message { ref_count = suc message.ref_count }) w.messages,
      v.fresh k,
    );
  }

abbrev pub unref_to : ℕ → Message → World → World
unref_to m message w =
    if message.ref_count == 1 then record w { messages = remove m w.messages } else record w {
      messages = insert m (record message { ref_count = message.ref_count - 1 }) w.messages;
    }

module _ {held : ℕ → ℕ} {w : World} (m : ℕ) (v : Counted (one_more m held) w) (message : Message)
    (e : lookup m w.messages ≡ some message) where
  pub unref-Counted : Counted held (unref_to m message w)
  unref-Counted = elim (Bool-cases (message.ref_count == 1)) [
    | inl one ↦ rw one (record {
      counts = λ k. ground (arith, lookup-remove m k w.messages, v.counts k);
      alive = λ k other f. ground (arith, lookup-remove m k w.messages, v.alive k other);
      fresh = λ k h. ground (arith, lookup-remove m k w.messages, v.fresh k);
    })
    | inr more ↦
        let less = record message { ref_count = message.ref_count - 1 } in
        rw more (record {
          counts = λ k.
              ground (arith, lookup-insert m k less w.messages, v.counts k, v.alive m message e);
          alive = λ k other f.
              ground
                (arith, lookup-insert m k less w.messages, v.alive k other, v.alive m message e);
          fresh = λ k h. ground (arith, lookup-insert m k less w.messages, v.fresh k);
        })
  ]

module _ {held : ℕ → ℕ} {w : World} (b m : ℕ) (bus new : OwrBus)
    (e : lookup b w.buses ≡ some bus) where
  -- A message moves from a function that holds it to the end of a queue.
  pub queued-Counted : Counted (one_more m held) w → Counted held (push b bus m w)
  queued-Counted v = record {
    counts = λ k. ground (
      arith,
      v.counts k,
      total-insert k b bus (record bus { queue = bus.queue ++ m ∷ [] }) w.buses e,
      count-append k bus.queue m,
    );
    alive = v.alive;
    fresh = v.fresh;
  }

  pub taken-Counted :
      (rest : List ℕ)
      → bus.queue ≡ m ∷ rest
      → Counted held w
      → Counted
          (one_more m held)
          (record w { buses = insert b (record bus { queue = rest }) w.buses })
  taken-Counted rest q v = record {
    counts = λ k.
        let before : count k bus.queue ≡ (if m == k then 1 else 0) + count k rest =
          ap (count k) q in
        ground
          (arith, v.counts k, before, total-insert k b bus (record bus { queue = rest }) w.buses e);
    alive = v.alive;
    fresh = v.fresh;
  }

-- A message that is held is there.
pub held_there :
    {held : ℕ → ℕ} {w : World} (m : ℕ)
    → Counted held w
    → 0 < held m
    → (message : Message) × (lookup m w.messages ≡ some message)
held_there {held} {w} m v h = elim (Option-cases (lookup m w.messages)) [
  | inl none_there ↦ absurd (ground (arith, v.counts m))
  | inr found ↦ found
]
