-- ===== src/Scream/Feedback.antt =====
-- The queue of SCReAM feedback between the probe on incoming packets and the RTCP packets that
-- leave, and the reading of feedback on the other side, transport/owr_transport_agent.c.
use openwebrtc.Prelude.{
  ℕ, suc, ◌/◌, ◌%◌, ◌^◌, Bool, true, false, not, ◌&&◌, ◌||◌, Option, none, some, List, [], ◌∷◌,
  ◌++◌, drop, ◌==◌, if◌then◌else◌,
}
use openwebrtc.Prelude.Int.{ℤ, pos, negsuc, eqb_ℤ}
use openwebrtc.Gst.{ByteIo}
use openwebrtc.Scream.{ScreamRx, update_ack}

-- The table rtcp_info; its packet type and format are always those of SCReAM feedback.
pub record Feedback : Type 0 where
  pub session_id : ℕ
  pub ssrc : ℕ  -- guint
  pub last_feedback_wallclock : ℕ  -- guint32
  pub highest_seq : ℕ  -- gushort
  pub n_loss : ℕ  -- guint8
  pub n_ecn : ℕ  -- guint8

-- compare_rtcp_scream.
abbrev pub compare_rtcp_scream : Feedback → Feedback → Bool
compare_rtcp_scream a b = (a.session_id == b.session_id) && (a.ssrc == b.ssrc)

-- g_list_find_custom and g_list_delete_link: the first entry of the same source goes.
unfoldable pub delete_source : Feedback → List Feedback → List Feedback
delete_source f [] = []
delete_source f (g ∷ gs) =
    let kept = g ∷ delete_source f gs in if compare_rtcp_scream g f then gs else kept

unfoldable pub queue_feedback : Feedback → List Feedback → List Feedback
queue_feedback f rtcp_list = delete_source f rtcp_list ++ f ∷ []

-- What the probe reads off a buffer. The arrival time is there or GST_CLOCK_TIME_NONE.
pub record RtpPacket : Type 0 where
  pub mapped : Bool
  pub payload_type : ℕ  -- guint8
  pub ssrc : ℕ
  pub seq : ℕ  -- guint16
  pub arrival_time : Option ℕ

abbrev unknown_pt : ℤ
unknown_pt = negsuc 1

-- The first packet asks the session for its payload: the payload type of retransmissions, and
-- whether SCReAM is used. `receive_payload` answers for payloads that the session has.
unfoldable pub learn_payload : (ℕ → ℤ × Bool) → ℕ → ScreamRx → ScreamRx
learn_payload receive_payload pt rx =
    if eqb_ℤ rx.rtx_pt unknown_pt
    then record rx { rtx_pt = (receive_payload pt).0; adapt = (receive_payload pt).1 }
    else rx

unfoldable pub feedback_of : ScreamRx → ℕ → Feedback
feedback_of rx ssrc = record {
  session_id = rx.session_id;
  ssrc = ssrc;
  last_feedback_wallclock = rx.last_feedback_wallclock;
  highest_seq = rx.highest_seq;
  n_loss = rx.n_loss;
  n_ecn = rx.n_ecn;
}

unfoldable pub receive_packet : ℕ → RtpPacket → ScreamRx → ScreamRx
receive_packet time packet rx = record (update_ack rx packet.seq) {
  n_ecn = 0;
  last_feedback_wallclock = time / 1000000 % 2 ^ 32;
}

-- The part of probe_rtp_info that runs with SCReAM in use, from the arrival time on.
unfoldable pub adapt_to : Option ℕ → RtpPacket → ScreamRx → List Feedback → ScreamRx × List Feedback
adapt_to none packet rx rtcp_list = (rx, rtcp_list)
adapt_to (some time) packet rx rtcp_list =
    if eqb_ℤ (pos packet.payload_type) rx.rtx_pt then (rx, rtcp_list) else (
      receive_packet time packet rx,
      queue_feedback (feedback_of (receive_packet time packet rx) packet.ssrc) rtcp_list,
    )

unfoldable pub probe_rtp_info :
    (ℕ → ℤ × Bool) → RtpPacket → ScreamRx → List Feedback → ScreamRx × List Feedback
probe_rtp_info receive_payload packet rx rtcp_list =
    let learnt = learn_payload receive_payload packet.payload_type rx in
    if (eqb_ℤ rx.rtx_pt unknown_pt || rx.adapt) && not packet.mapped
    then (rx, rtcp_list)
    else if learnt.adapt
    then adapt_to packet.arrival_time packet learnt rtcp_list
    else (learnt, rtcp_list)

-- An RTCP feedback packet: the media source and the feedback control information.
pub record FeedbackPacket : Type 0 where
  pub media_ssrc : ℕ
  pub fci : List ℕ

unfoldable pub write_fci : ByteIo → Feedback → List ℕ
write_fci io f =
    io.write_uint16_be f.highest_seq
    ++ (io.write_uint8 f.n_loss
        ++ (io.write_uint8 f.n_ecn
            ++ (io.write_uint32_be f.last_feedback_wallclock ++ io.write_uint32_be 0)))

-- What GStreamer answers for the n-th attempt to add a packet: whether there is room for the
-- packet, and whether there is room for its control information.
pub record Room : Type 0 where
  pub packet : Bool
  pub fci : Bool

-- The loop of on_sending_rtcp: what stays queued, and what is sent.
unfoldable pub flush :
    ByteIo → (ℕ → Room) → ℕ → ℕ → List Feedback → List Feedback × List FeedbackPacket
flush io room n session_id [] = ([], [])
flush io room n session_id (f ∷ fs) =
    let mine = session_id == f.session_id in
    let rest = flush io room (if mine then suc n else n) session_id fs in
    if mine && (room n).packet && (room n).fci
    then (rest.0, record { media_ssrc = f.ssrc; fci = write_fci io f } ∷ rest.1)
    else (f ∷ rest.0, rest.1)

abbrev pub is_empty : List FeedbackPacket → Bool
is_empty [] = true
is_empty (p ∷ ps) = false

-- on_sending_rtcp, to the return value: the packet is not suppressed if it holds feedback already
-- or gets some.
unfoldable pub on_sending_rtcp :
    ByteIo → (ℕ → Room) → ℕ → Bool → List Feedback → (List Feedback × List FeedbackPacket) × Bool
on_sending_rtcp io room session_id has_feedback rtcp_list =
    let flushed = flush io room 0 session_id rtcp_list in
    (flushed, has_feedback || not (is_empty flushed.1))

-- The values that on_feedback_rtcp hands to the congestion control.
pub record Report : Type 0 where
  pub timestamp : ℕ
  pub highest_seq : ℕ
  pub n_loss : ℕ
  pub n_ecn : ℕ
  pub qbit : Bool

unfoldable pub on_feedback_rtcp : ByteIo → List ℕ → Report
on_feedback_rtcp io fci = record {
  timestamp = io.read_uint32_be (drop 4 fci);
  highest_seq = io.read_uint16_be fci;
  n_loss = io.read_uint8 (drop 2 fci);
  n_ecn = io.read_uint8 (drop 3 fci);
  qbit = false;
}
