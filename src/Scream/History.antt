-- ===== src/Scream/History.antt =====
-- Each packet keeps the acknowledgement state in step with the history of arrivals.
use Prim.Native.Nat.{bit_and}
use openwebrtc.Prelude.{
  ℕ, ◌+◌, ◌-◌, ◌%◌, ◌^◌, ◌≤◌, ◌<◌, ◌≡◌, ◌∙◌, refl, Bool, true, false, arith, leb, ◌==◌,
  if◌then◌else◌, Bool-cases, inl, inr,
}
use openwebrtc.Prelude.Bits.{bit-of_lt, bit_and-two_pow}
use openwebrtc.Scream.{
  ScreamRx, scream_rx_new, is_initial, unwrap_seq, unwrap_highest, ack_in_order, ack_out_of_order,
  ack_step, count_loss, update_ack,
}
use openwebrtc.Scream.Window.{
  acked, Tracks, hear, unwrap_order, unwrap_ahead, unwrap_behind, ack_in_order-small,
  ack_out_of_order-small, window-in_order, window-out_of_order,
}

abbrev pub newer : ℕ → ℕ → ℕ
newer h s = if leb h s then s else h

module _ {rx : ScreamRx} {h : ℕ} {heard : ℕ → Bool} (t : Tracks rx h heard) (s : ℕ) where
  in_order-Tracks :
      h ≤ s
      → Tracks
          (record rx { ack_vec = ack_in_order rx.ack_vec (s - h); highest_seq = s % 65536 })
          s
          (hear s heard)
  in_order-Tracks g = record {
    room = omega (arith, t.room);
    same = refl;
    small = ack_in_order-small rx.ack_vec (s - h) t.small;
    newest = ground arith;
    bounded = λ n p. ground (arith, t.bounded n);
    window = window-in_order t s g;
  }

  out_of_order-Tracks :
      s < h → Tracks (record rx { ack_vec = ack_out_of_order rx.ack_vec (h - s) }) h (hear s heard)
  out_of_order-Tracks g = record {
    room = t.room;
    same = t.same;
    small = ack_out_of_order-small rx.ack_vec (h - s) t.small;
    newest = ground (arith, t.newest);
    bounded = λ n p. ground (arith, t.bounded n);
    window = window-out_of_order t s g;
  }

  ack_step-Tracks :
      s ≤ h + 20000
      → h ≤ s + 20000
      → Tracks
          (ack_step rx
            (s % 65536)
            (unwrap_seq rx.highest_seq (s % 65536))
            (unwrap_highest rx.highest_seq (s % 65536)))
          (newer h s)
          (hear s heard)
  unfolding ack_step
  ack_step-Tracks p q =
      let order : leb (unwrap_highest rx.highest_seq (s % 65536))
            (unwrap_seq rx.highest_seq (s % 65536))
          ≡ leb h s =
        rw t.same (unwrap_order h s p q) in
      elim (Bool-cases (leb h s)) [
        | inl e ↦
            let g : h ≤ s = ground arith in
            let ahead : unwrap_seq rx.highest_seq (s % 65536)
                  - unwrap_highest rx.highest_seq (s % 65536)
                ≡ s - h =
              rw t.same (unwrap_ahead h s p q g) in
            rw (order, e, ahead) (in_order-Tracks g)
        | inr e ↦
            let g : s < h = ground arith in
            let behind : unwrap_highest rx.highest_seq (s % 65536)
                  - unwrap_seq rx.highest_seq (s % 65536)
                ≡ h - s =
              rw t.same (unwrap_behind h s p q g) in
            rw (order, e, behind) (out_of_order-Tracks g)
      ]

module _ {rx : ScreamRx} {h : ℕ} {heard : ℕ → Bool} (t : Tracks rx h heard) where
  Tracks-n_loss : (n : ℕ) → Tracks (record rx { n_loss = n }) h heard
  Tracks-n_loss n = record {
    room = t.room;
    same = t.same;
    small = t.small;
    newest = t.newest;
    bounded = t.bounded;
    window = t.window;
  }

  count_loss-Tracks : Tracks (count_loss rx) h heard
  unfolding count_loss
  count_loss-Tracks = elim (Bool-cases (bit_and rx.ack_vec (2 ^ (16 - 5)) == 0)) [
    | inl e ↦ rw e (Tracks-n_loss ((rx.n_loss + 1) % 2 ^ 8))
    | inr e ↦ rw e t
  ]

  count_loss-n_loss :
      (count_loss rx).n_loss ≡ (if heard (h - 5) then rx.n_loss else (rx.n_loss + 1) % 2 ^ 8)
  unfolding count_loss
  count_loss-n_loss = ground (arith, bit_and-two_pow 11 rx.ack_vec, t.window 5)

ack_step-n_loss : (rx : ScreamRx) (seq a b : ℕ) → (ack_step rx seq a b).n_loss ≡ rx.n_loss
unfolding ack_step
ack_step-n_loss rx seq a b = ground arith

-- A packet that is less than 20000 numbers away from the newest one, and comes when the state is
-- not the initial one, keeps the state in step with the history, wrap of the 16-bit sequence
-- number included: the highest number is the newest that came, and each of the 15 bits below it
-- says whether that packet came.
pub update_ack-Tracks :
    {rx : ScreamRx} {h : ℕ} {heard : ℕ → Bool} (s : ℕ)
    → Tracks rx h heard
    → is_initial rx ≡ false
    → s ≤ h + 20000
    → h ≤ s + 20000
    → Tracks (update_ack rx (s % 65536)) (newer h s) (hear s heard)
unfolding update_ack
update_ack-Tracks s t i p q = rw i (count_loss-Tracks (ack_step-Tracks t s p q))

-- A packet that is less than 20000 numbers away from the newest one, and comes when the state is
-- not the initial one, raises the loss count by one, modulo 256, exactly if the packet five
-- places before the newest one has not come.
pub update_ack-n_loss :
    {rx : ScreamRx} {h : ℕ} {heard : ℕ → Bool} (s : ℕ)
    → Tracks rx h heard
    → is_initial rx ≡ false
    → s ≤ h + 20000
    → h ≤ s + 20000
    → (update_ack rx (s % 65536)).n_loss
      ≡ (if hear s heard (newer h s - 5) then rx.n_loss else (rx.n_loss + 1) % 2 ^ 8)
unfolding update_ack
update_ack-n_loss {rx} s t i p q =
    rw (i, count_loss-n_loss (ack_step-Tracks t s p q), ack_step-n_loss rx)

abbrev pub first_heard : ℕ → ℕ → Bool
first_heard s n = n == s

initial-new : (id : ℕ) → is_initial (scream_rx_new id) ≡ true
unfolding is_initial scream_rx_new
initial-new id = refl

ack_step-first :
    (id s : ℕ)
    → 16 ≤ s
    → Tracks
        (ack_step
          (record (scream_rx_new id) { highest_seq = s % 65536 })
          (s % 65536)
          (s % 65536)
          (s % 65536))
        s
        (first_heard s)
unfolding ack_step ack_in_order scream_rx_new
ack_step-first id s p = record {
  room = p;
  same = ground arith;
  small = ground arith;
  newest = ground arith;
  bounded = λ n q. ground arith;
  window = λ d q r. ground (arith, bit-of_lt 0 (16 - d) 0);
}

-- The first packet of a session, with a number of 16 at least before the cut to 16 bits, puts the
-- state in step with the history that holds it alone.
pub update_ack-first :
    (id s : ℕ) → 16 ≤ s → Tracks (update_ack (scream_rx_new id) (s % 65536)) s (first_heard s)
unfolding update_ack
update_ack-first id s p = rw (initial-new id) (count_loss-Tracks (ack_step-first id s p))

update_ack-forgets :
    (rx : ScreamRx) (seq : ℕ)
    → is_initial rx ≡ true
    → seq < 2 ^ 16
    → ((update_ack rx seq).highest_seq ≡ seq) × ((update_ack rx seq).ack_vec ≡ 0)
unfolding update_ack is_initial ack_step ack_in_order count_loss
update_ack-forgets rx seq h p = ground arith

later-IsLater :
    (id f : ℕ) → 16 ≤ f → f < 65536 → is_initial (update_ack (scream_rx_new id) (f % 65536)) ≡ false
unfolding is_initial
later-IsLater id f p q = ground (arith, (update_ack-first id f p).same)

-- When the packet with number 0 comes first, the packet s places after it, for an s below 16, wipes
-- out that it came: the state is taken for the initial one again. When the first packet has a
-- number from 16 on, and the second one no wrap, the second one marks that the first one came.
pub update_ack-zero :
    (id f s : ℕ)
    → 0 < s
    → s < 16
    → 16 ≤ f
    → f + s < 65536
    → (acked (update_ack (update_ack (scream_rx_new id) 0) s).ack_vec s ≡ false)
      × (acked (update_ack (update_ack (scream_rx_new id) (f % 65536)) ((f + s) % 65536)).ack_vec s
          ≡ true)
unfolding is_initial
update_ack-zero id f s p q r t =
    let zero_first = update_ack-forgets (scream_rx_new id) 0 (initial-new id) (omega arith) in
    let again : is_initial (update_ack (scream_rx_new id) 0) ≡ true = ground (arith, zero_first) in
    let wiped = update_ack-forgets (update_ack (scream_rx_new id) 0) s again (omega arith) in
    let first = update_ack-first id f r in
    let second =
      update_ack-Tracks (f + s) first (later-IsLater id f r (omega arith)) (omega arith)
        (omega arith) in
    (
      rw wiped.1 (bit-of_lt 0 (16 - s) 0 (omega arith) (omega arith)),
      second.window s p q ∙ ground arith,
    )
