-- ===== src/Bus/Posting.antt =====
-- Posting, delivery, and any interleaving of the two, owr/owr_bus.c and owr/owr_message_origin.c.
use Prim.Native.Nat.{bit_and}
use openwebrtc.Prelude.{
  ℕ, ◌<◌, ◌≡◌, refl, Option, some, List, [], ◌∷◌, ◌++◌, arith, ◌==◌, inl, inr, Bool-cases,
  Option-cases, lookup, lookup-insert,
}
use openwebrtc.Outcome.{Outcome, ok, ◌>>=◌}
use openwebrtc.Bus.{
  Message, OwrBus, World, message_ref, message_unref, bus_post_message, post_at, post_all,
  message_new, post_message, invoke, handle_message, pop_at, bus_thread_at, bus_thread_func,
}
use openwebrtc.Bus.Counts.{
  Counted, one_more, ref-Counted, unref-Counted, unref_to, queued-Counted, taken-Counted,
  held_there,
}

-- A run that ends in a state where the counts are right.
abbrev Succeeds : (ℕ → ℕ) → Outcome World → Type 0
Succeeds held run = (w : World) × (run ≡ ok w) × Counted held w

unref-Succeeds :
    {held : ℕ → ℕ} {w : World} (m : ℕ)
    → Counted (one_more m held) w
    → Succeeds held (message_unref m w)
unfolding message_unref
unref-Succeeds {held} {w} m v =
    let (message, e) = held_there m v (ground arith) in
    (unref_to m message w, rw e refl, unref-Counted m v message e)

bus_post-Succeeds :
    {held : ℕ → ℕ} {w : World} (b : ℕ) (bus : OwrBus) (m : ℕ)
    → lookup b w.buses ≡ some bus
    → 0 < held m
    → Counted held w
    → Succeeds held (bus_post_message b bus m w)
unfolding bus_post_message message_ref
bus_post-Succeeds {held} {w} b bus m there h v =
    let (message, e) = held_there m v h in
    elim (Bool-cases (bit_and message.message_type bus.message_type_mask == 0)) [
      | inl skip ↦ (w, rw (e, skip) refl, v)
      | inr wanted ↦
          (_, rw (e, wanted) refl, queued-Counted b m bus bus there (ref-Counted v m message e))
    ]

post_all-Succeeds :
    {held : ℕ → ℕ} (m : ℕ) (bs : List ℕ) (w : World)
    → 0 < held m
    → Counted held w
    → (r : List ℕ × World) × (post_all m bs w ≡ ok r) × Counted held r.1
unfolding post_all post_at
post_all-Succeeds m [] w h v = (([], w), refl, v)
post_all-Succeeds m (b ∷ bs) w h v = elim (Option-cases (lookup b w.buses)) [
  | inl dead ↦ let (r, e, u) = post_all-Succeeds m bs w h v in (r, rw (dead, e) refl, u)
  | inr (bus, there) ↦
      let (w', posted, v') = bus_post-Succeeds b bus m there h v in
      let (r, e, u) = post_all-Succeeds m bs w' h v' in
      ((b ∷ r.0, r.1), rw (there, posted, e) refl, u)
]

abbrev pub none_held : ℕ → ℕ
none_held m = 0

new-Counted :
    (origin message_type sub_type : ℕ) (contents : Option ℕ) (w : World)
    → Counted none_held w
    → Counted (one_more w.next none_held) (message_new origin message_type sub_type contents w)
unfolding message_new
new-Counted origin message_type sub_type contents w v =
    let new : Message = record {
      origin = origin;
      message_type = message_type;
      sub_type = sub_type;
      contents = contents;
      ref_count = 1;
    } in
    record {
      counts = λ k. ground (arith, lookup-insert w.next k new w.messages, v.counts k, v.fresh k);
      alive = λ k other f. ground (arith, lookup-insert w.next k new w.messages, v.alive k other);
      fresh = λ k h. ground (arith, lookup-insert w.next k new w.messages, v.fresh k);
    }

post_message-Succeeds :
    (origin message_type sub_type : ℕ) (contents : Option ℕ) (bus_set : List ℕ) (w : World)
    → Counted none_held w
    → (r : List ℕ × World) × (post_message origin message_type sub_type contents bus_set w ≡ ok r)
      × Counted none_held r.1
unfolding post_message
post_message-Succeeds origin message_type sub_type contents bus_set w v =
    let (r, e, u) =
      post_all-Succeeds w.next bus_set (message_new origin message_type sub_type contents w)
        (ground arith) (new-Counted origin message_type sub_type contents w v) in
    let (w', freed, u') = unref-Succeeds w.next u in ((r.0, w'), rw (e, freed) refl, u')

handle-Succeeds :
    {held : ℕ → ℕ} {w : World} (m : ℕ) (callback : Option ℕ)
    → Counted (one_more m held) w
    → Succeeds held (handle_message m callback w)
unfolding handle_message
handle-Succeeds {held} {w} m callback v =
    let (message, e) = held_there m v (ground arith) in
    let called : Counted (one_more m held)
        (record w { calls = w.calls ++ invoke callback message }) =
      record { counts = v.counts; alive = v.alive; fresh = v.fresh } in
    let (w', freed, u) = unref-Succeeds m called in (w', rw (e, freed) refl, u)

pop-Succeeds :
    {held : ℕ → ℕ} {w : World} (b : ℕ) (bus : OwrBus) (queue : List ℕ)
    → lookup b w.buses ≡ some bus
    → bus.queue ≡ queue
    → Counted held w
    → Succeeds held (pop_at b bus queue w)
unfolding pop_at
pop-Succeeds {held} {w} b bus [] there q v = (w, refl, v)
pop-Succeeds b bus (m ∷ rest) there q v =
    handle-Succeeds m bus.callback_func (taken-Counted b m bus bus there rest q v)

thread-Succeeds :
    {held : ℕ → ℕ} (b : ℕ) (w : World) → Counted held w → Succeeds held (bus_thread_func b w)
unfolding bus_thread_func bus_thread_at
thread-Succeeds b w v = elim (Option-cases (lookup b w.buses)) [
  | inl dead ↦ (w, rw dead refl, v)
  | inr (bus, there) ↦
      let (w', e, u) = pop-Succeeds b bus bus.queue there refl v in (w', rw (there, e) refl, u)
]

-- What origins and bus threads do, one step at a time: an origin posts to its buses, or a bus
-- thread handles the next message of its queue.
pub data Step : Type 0 where
  post : ℕ → ℕ → ℕ → Option ℕ → List ℕ → Step
  deliver : ℕ → Step

unfoldable pub step : Step → World → Outcome World
step (post origin message_type sub_type contents bus_set) w =
    post_message origin message_type sub_type contents bus_set w >>= λ r. ok r.1
step (deliver b) w = bus_thread_func b w

unfoldable pub run : List Step → World → Outcome World
run [] w = ok w
run (s ∷ ss) w = step s w >>= run ss

step-Succeeds : (s : Step) (w : World) → Counted none_held w → Succeeds none_held (step s w)
unfolding step
step-Succeeds (post origin message_type sub_type contents bus_set) w v =
    let (r, e, u) = post_message-Succeeds origin message_type sub_type contents bus_set w v in
    (r.1, rw e refl, u)
step-Succeeds (deliver b) w v = thread-Succeeds b w v

-- From a state in which each message has as many references as there are places in the queues that
-- hold it, in whatever order origins post and bus threads deliver, no message is used after it has been
-- freed, and afterwards the references are counted in the same way: one that is in no queue has been freed.
pub run-Counted :
    (ss : List Step) (w : World)
    → Counted none_held w
    → (w' : World) × (run ss w ≡ ok w') × Counted none_held w'
unfolding run
run-Counted [] w v = (w, refl, v)
run-Counted (s ∷ ss) w v =
    let (w1, e, v1) = step-Succeeds s w v in
    let (w2, f, v2) = run-Counted ss w1 v1 in (w2, rw (e, f) refl, v2)
