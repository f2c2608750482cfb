-- ===== src/Scream/Window.antt =====
-- The acknowledgement vector against the history of the packets that came.
use Prim.Native.Nat.{bit_or}
use openwebrtc.Prelude.{
  ℕ, ◌+◌, ◌-◌, ◌/◌, ◌%◌, ◌^◌, ◌≤◌, ◌<◌, ◌≡◌, Bool, true, false, ◌||◌, arith, ltb, leb, ◌==◌,
  if◌then◌else◌,
}
use openwebrtc.Prelude.Bits.{bit, bit-bit_or, bit-two_pow, bit-shift, bit-mod, bit-of_lt}
use openwebrtc.Scream.{ScreamRx, unwrap_seq, unwrap_highest, ack_in_order, ack_out_of_order}

-- Bit 16 - d of the vector speaks of the packet d places before the highest one.
abbrev pub acked : ℕ → ℕ → Bool
acked ack_vec d = bit ack_vec (16 - d)

module _ (ack_vec diff d : ℕ) (p : 0 < diff) (q : diff < 16) (r : 0 < d) (s : d < 16) where
  places : (16 - diff == 16 - d) ≡ (d == diff)
  places = ground arith

  -- The vector moves by diff, the packet that was the highest is marked, and the packets between
  -- it and the new highest one are not.
  acked-in_order :
      ack_vec < 2 ^ 16
      → acked (ack_in_order ack_vec diff) d
        ≡ (if ltb d diff then false else if d == diff then true else acked ack_vec (d - diff))
  unfolding ack_in_order
  acked-in_order small = ground (
    arith,
    bit-mod 16 (16 - d) (bit_or (ack_vec / 2 ^ diff) (2 ^ (16 - diff))),
    bit-bit_or (ack_vec / 2 ^ diff) (2 ^ (16 - diff)) (16 - d),
    bit-two_pow (16 - diff) (16 - d),
    bit-shift diff ack_vec (16 - d) (diff + (16 - d)),
    bit-of_lt 16 (diff + (16 - d)) ack_vec,
  )

  acked-out_of_order : acked (ack_out_of_order ack_vec diff) d ≡ ((d == diff) || acked ack_vec d)
  unfolding ack_out_of_order
  acked-out_of_order = ground (
    arith,
    bit-mod 16 (16 - d) (bit_or ack_vec (2 ^ (16 - diff))),
    bit-bit_or ack_vec (2 ^ (16 - diff)) (16 - d),
    bit-two_pow (16 - diff) (16 - d),
  )

-- The state tracks a history: `highest` is the number, without wrap, of the newest packet that
-- came, and `heard` says which packets came.
pub record Tracks (rx : ScreamRx) (highest : ℕ) (heard : ℕ → Bool) : Type 0 where
  pub room : 16 ≤ highest
  pub same : rx.highest_seq ≡ highest % 65536
  pub small : rx.ack_vec < 2 ^ 16
  pub newest : heard highest ≡ true
  pub bounded : (n : ℕ) → highest < n → heard n ≡ false
  pub window : (d : ℕ) → 0 < d → d < 16 → acked rx.ack_vec d ≡ heard (highest - d)

abbrev pub hear : ℕ → (ℕ → Bool) → ℕ → Bool
hear seq heard n = (n == seq) || heard n

-- Numbers less than 20000 apart are told apart rightly from their 16 low bits.
module _ (h s : ℕ) (p : s ≤ h + 20000) (q : h ≤ s + 20000) where
  pub unwrap_order :
      leb (unwrap_highest (h % 65536) (s % 65536)) (unwrap_seq (h % 65536) (s % 65536)) ≡ leb h s
  unfolding unwrap_highest unwrap_seq
  unwrap_order = ground arith

  pub unwrap_ahead :
      h ≤ s → unwrap_seq (h % 65536) (s % 65536) - unwrap_highest (h % 65536) (s % 65536) ≡ s - h
  unfolding unwrap_highest unwrap_seq
  unwrap_ahead g = ground arith

  pub unwrap_behind :
      s < h → unwrap_highest (h % 65536) (s % 65536) - unwrap_seq (h % 65536) (s % 65536) ≡ h - s
  unfolding unwrap_highest unwrap_seq
  unwrap_behind g = ground arith

pub ack_in_order-small : (v d : ℕ) → v < 2 ^ 16 → ack_in_order v d < 2 ^ 16
unfolding ack_in_order
ack_in_order-small v d h = ground arith

pub ack_out_of_order-small : (v d : ℕ) → v < 2 ^ 16 → ack_out_of_order v d < 2 ^ 16
unfolding ack_out_of_order
ack_out_of_order-small v d h = ground arith

ack_in_order-zero : (v d : ℕ) → d ≡ 0 → ack_in_order v d ≡ v
unfolding ack_in_order
ack_in_order-zero v d h = ground arith

ack_in_order-far : (v d k : ℕ) → 16 ≤ d → acked (ack_in_order v d) k ≡ false
unfolding ack_in_order
ack_in_order-far v d k h = ground (arith, bit-of_lt 0 (16 - k) 0)

ack_out_of_order-far : (v d : ℕ) → 16 ≤ d → ack_out_of_order v d ≡ v
unfolding ack_out_of_order
ack_out_of_order-far v d h = ground arith

module _ {rx : ScreamRx} {h : ℕ} {heard : ℕ → Bool} (t : Tracks rx h heard) (s : ℕ) where
  pub window-in_order :
      h ≤ s
      → (d : ℕ) → 0 < d
      → d < 16
      → acked (ack_in_order rx.ack_vec (s - h)) d ≡ hear s heard (s - d)
  window-in_order g d p q = ground (
    arith,
    ack_in_order-zero rx.ack_vec (s - h),
    ack_in_order-far rx.ack_vec (s - h) d,
    acked-in_order rx.ack_vec (s - h) d,
    t.small,
    t.room,
    t.newest,
    t.bounded (s - d),
    t.window d,
    t.window (d - (s - h)),
  )

  pub window-out_of_order :
      s < h
      → (d : ℕ) → 0 < d
      → d < 16
      → acked (ack_out_of_order rx.ack_vec (h - s)) d ≡ hear s heard (h - d)
  window-out_of_order g d p q = ground (
    arith,
    ack_out_of_order-far rx.ack_vec (h - s),
    acked-out_of_order rx.ack_vec (h - s) d,
    t.room,
    t.window d,
  )
