-- ===== src/Tests/Feedback.antt =====
-- Feedback of two sources, queued, sent and read.
use openwebrtc.Prelude.{
  ℕ, ◌≡◌, ◌↔◌, refl, Bool, true, false, ◌&&◌, some, List, [], ◌∷◌, arith, ◌==◌, if◌then◌else◌,
}
use openwebrtc.Prelude.Int.{ℤ, pos}
use openwebrtc.Scream.{scream_rx_new}
use openwebrtc.Scream.Feedback.{
  Feedback, RtpPacket, Room, learn_payload, receive_packet, feedback_of, probe_rtp_info, write_fci,
  on_feedback_rtcp, on_sending_rtcp,
}
use openwebrtc.Scream.Fci.{on_feedback_rtcp-write_fci}
use openwebrtc.Scream.Queue.{Distinct, queued, queued-probe_rtp_info, probe_rtp_info-Distinct}
use openwebrtc.Scream.Flush.{
  Divided, of_others, of_session, packets, on_sending_rtcp-keeps, on_sending_rtcp-room,
}
use openwebrtc.Tests.Wire.{big_endian, big_endian-IsByteIo}

abbrev feedback : ℕ → Feedback
feedback session = record {
  session_id = session;
  ssrc = 77;
  last_feedback_wallclock = 70000;
  highest_seq = 300;
  n_loss = 2;
  n_ecn = 0;
}

on_feedback_rtcp-write_fci_example :
    on_feedback_rtcp big_endian (write_fci big_endian (feedback 1))
    ≡ record { timestamp = 70000; highest_seq = 300; n_loss = 2; n_ecn = 0; qbit = false }
on_feedback_rtcp-write_fci_example =
    on_feedback_rtcp-write_fci big_endian big_endian-IsByteIo (feedback 1) (omega arith)
      (omega arith) (omega arith) (omega arith)

abbrev queue : List Feedback
queue = feedback 2 ∷ feedback 1 ∷ []

queue-Distinct : Distinct queue
queue-Distinct = ((refl, tt), (tt, tt))

abbrev packet : RtpPacket
packet = record {
  mapped = true;
  payload_type = 103;
  ssrc = 77;
  seq = 301;
  arrival_time = some 5000000;
}

abbrev receive_payload : ℕ → ℤ × Bool
receive_payload pt = (pos 123, true)

probe_rtp_info-Distinct_example :
    Distinct (probe_rtp_info receive_payload packet (scream_rx_new 1) queue).1
probe_rtp_info-Distinct_example =
    probe_rtp_info-Distinct receive_payload packet (scream_rx_new 1) queue queue-Distinct

queued-probe_rtp_info_example :
    let learnt = learn_payload receive_payload 103 (scream_rx_new 1) in
    let after = probe_rtp_info receive_payload packet (scream_rx_new 1) queue in
    (after.0 ≡ receive_packet 5000000 packet learnt)
    × (queued 2 77 after.1 ≡ (
        let f = feedback_of after.0 77 in
        if (f.session_id == 2) && (f.ssrc == 77) then some f else queued 2 77 queue))
unfolding learn_payload scream_rx_new
queued-probe_rtp_info_example =
    queued-probe_rtp_info receive_payload packet (scream_rx_new 1) queue 5000000 2 77 queue-Distinct
      refl refl refl refl

abbrev roomy : ℕ → Room
roomy n = record { packet = true; fci = true }

on_sending_rtcp-keeps_example :
    let r = on_sending_rtcp big_endian roomy 1 false queue in
    ((sent : List Feedback) × (r.0.1 ≡ packets big_endian sent) × Divided 1 queue r.0.0 sent)
    × (of_others 1 r.0.0 ≡ of_others 1 queue)
    × ((r.1 ≡ false) ↔ ((Path Bool false false) × (r.0.1 ≡ [])))
on_sending_rtcp-keeps_example = on_sending_rtcp-keeps big_endian roomy 1 false queue

on_sending_rtcp-room_example :
    (on_sending_rtcp big_endian roomy 1 false queue).0
    ≡ (of_others 1 queue, packets big_endian (of_session 1 queue))
on_sending_rtcp-room_example = on_sending_rtcp-room big_endian roomy 1 (λ n. refl) false queue
