-- ===== src/Tests/Scream.antt =====
-- The first packets of a stream whose sequence numbers wrap.
use openwebrtc.Prelude.{◌+◌, ◌%◌, ◌^◌, ◌≡◌, refl, true, false, arith, if◌then◌else◌}
use openwebrtc.Scream.{
  ScreamRx, scream_rx_new, is_initial, unwrap_seq, unwrap_highest, ack_in_order, ack_out_of_order,
  ack_step, count_loss, update_ack,
}
use openwebrtc.Scream.Window.{acked, Tracks, hear}
use openwebrtc.Scream.History.{
  newer, first_heard, update_ack-Tracks, update_ack-n_loss, update_ack-first, update_ack-zero,
}

abbrev start : ScreamRx
start = update_ack (scream_rx_new 1) 65535

update_ack-first_test : Tracks start 65535 (first_heard 65535)
update_ack-first_test = update_ack-first 1 65535 (omega arith)

start-Tracks : Tracks start 65535 (first_heard 65535)
start-Tracks = update_ack-first 1 65535 (omega arith)

start-IsLater : is_initial start ≡ false
unfolding update_ack scream_rx_new is_initial ack_step ack_in_order count_loss
start-IsLater = refl

update_ack-Tracks_example :
    Tracks (update_ack start (65538 % 65536)) (newer 65535 65538) (hear 65538 (first_heard 65535))
update_ack-Tracks_example =
    update_ack-Tracks 65538 start-Tracks start-IsLater (omega arith) (omega arith)

update_ack-n_loss_example :
    (update_ack start (65538 % 65536)).n_loss
    ≡ (if hear 65538 (first_heard 65535) 65533 then start.n_loss else (start.n_loss + 1) % 2 ^ 8)
update_ack-n_loss_example =
    update_ack-n_loss 65538 start-Tracks start-IsLater (omega arith) (omega arith)

update_ack-zero_example :
    (acked (update_ack (update_ack (scream_rx_new 1) 0) 1).ack_vec 1 ≡ false)
    × (acked (update_ack (update_ack (scream_rx_new 1) (40 % 65536)) (41 % 65536)).ack_vec 1 ≡ true)
update_ack-zero_example =
    update_ack-zero 1 40 1 (omega arith) (omega arith) (omega arith) (omega arith)

-- Number 65537 is late: its place in the vector, one before the highest, is marked.
late_test : (update_ack (update_ack start 2) 1).ack_vec ≡ 2 ^ 15 + 2 ^ 13
unfolding update_ack scream_rx_new is_initial ack_step ack_in_order ack_out_of_order count_loss
    unwrap_seq unwrap_highest
late_test = refl
