-- ===== src/Scream.antt =====
-- The receiving side of SCReAM congestion control, transport/owr_transport_agent.c: what a session
-- remembers of the RTP packets that arrive (struct ScreamRx) and how each packet updates it.
pub mod Window
pub mod History
pub mod Feedback
pub mod Fci
pub mod Queue
pub mod Flush
use Prim.Native.Nat.{bit_and, bit_or}
use openwebrtc.Prelude.{
  ℕ, suc, ◌+◌, ◌-◌, ◌/◌, ◌%◌, ◌^◌, ◌≡◌, Bool, true, false, ◌&&◌, ltb, leb, ◌==◌, if◌then◌else◌,
}
use openwebrtc.Prelude.Int.{ℤ, negsuc}

pub record ScreamRx : Type 0 where
  pub session_id : ℕ
  pub rtx_pt : ℤ
  pub adapt : Bool
  pub highest_seq : ℕ  -- gushort
  pub ack_vec : ℕ  -- guint16
  pub n_loss : ℕ  -- guint8
  pub n_ecn : ℕ  -- guint8
  pub last_feedback_wallclock : ℕ  -- guint32

-- What prepare_transport_bin_receive_elements hands to the probe.
unfoldable pub scream_rx_new : ℕ → ScreamRx
scream_rx_new stream_id = record {
  session_id = stream_id;
  rtx_pt = negsuc 1;
  adapt = true;
  highest_seq = 0;
  ack_vec = 0;
  n_loss = 0;
  n_ecn = 0;
  last_feedback_wallclock = 0;
}

-- The initial condition: nothing is remembered.
unfoldable pub is_initial : ScreamRx → Bool
is_initial rx = (rx.highest_seq == 0) && (rx.ack_vec == 0)

-- seq, put on the far side of the wrap if it is more than 20000 below the highest.
unfoldable pub unwrap_seq : ℕ → ℕ → ℕ
unwrap_seq highest seq = if ltb seq highest && ltb 20000 (highest - seq) then seq + 65536 else seq

-- The highest number, put on the far side if seq is more than 20000 above it.
unfoldable pub unwrap_highest : ℕ → ℕ → ℕ
unwrap_highest highest seq =
    if ltb highest seq && ltb 20000 (seq - highest) then highest + 65536 else highest

-- A packet that is not older than the highest one, by diff.
unfoldable pub ack_in_order : ℕ → ℕ → ℕ
ack_in_order ack_vec diff =
    if diff == 0
    then ack_vec
    else if leb 16 diff
    then 0
    else bit_or (ack_vec / 2 ^ diff) (2 ^ (16 - diff)) % 2 ^ 16

-- A packet that is older than the highest one, by diff.
unfoldable pub ack_out_of_order : ℕ → ℕ → ℕ
ack_out_of_order ack_vec diff =
    if ltb diff 16 then bit_or ack_vec (2 ^ (16 - diff)) % 2 ^ 16 else ack_vec

unfoldable pub ack_step : ScreamRx → ℕ → ℕ → ℕ → ScreamRx
ack_step rx seq tmp_seq tmp_highest =
    if leb tmp_highest tmp_seq
    then record rx { ack_vec = ack_in_order rx.ack_vec (tmp_seq - tmp_highest); highest_seq = seq }
    else record rx { ack_vec = ack_out_of_order rx.ack_vec (tmp_highest - tmp_seq) }

-- A packet is counted as lost if the one five places before the highest has not come.
unfoldable pub count_loss : ScreamRx → ScreamRx
count_loss rx =
    if bit_and rx.ack_vec (2 ^ (16 - 5)) == 0
    then record rx { n_loss = (rx.n_loss + 1) % 2 ^ 8 }
    else rx

unfoldable pub update_ack : ScreamRx → ℕ → ScreamRx
update_ack rx seq = count_loss (
    if is_initial rx
    then ack_step (record rx { highest_seq = seq }) seq seq seq
    else ack_step rx seq (unwrap_seq rx.highest_seq seq) (unwrap_highest rx.highest_seq seq))
