-- ===== src/Scream/Fci.antt =====
-- Feedback that is written into a packet and read on the other side, transport/owr_transport_agent.c.
use native.Mathlib.Nat.{mod-eq_of_lt}
use openwebrtc.Prelude.{
  ℕ, ◌^◌, ◌<◌, ◌≡◌, ◌∙◌, refl, ap, false, List, ◌++◌, drop, drop-append, drop-drop,
}
use openwebrtc.Gst.{ByteIo, IsByteIo}
use openwebrtc.Scream.Feedback.{Feedback, write_fci, on_feedback_rtcp}

module _ (io : ByteIo) (laws : IsByteIo io) (f : Feedback) where
  after_seq : List ℕ
  after_seq =
      io.write_uint8 f.n_loss
      ++ (io.write_uint8 f.n_ecn
          ++ (io.write_uint32_be f.last_feedback_wallclock ++ io.write_uint32_be 0))

  drop_2 : drop 2 (write_fci io f) ≡ after_seq
  unfolding write_fci after_seq
  drop_2 = drop-append 2 (io.write_uint16_be f.highest_seq) _ (laws.length-write_uint16_be _)

  drop_3 :
      drop 3 (write_fci io f)
      ≡ io.write_uint8 f.n_ecn
        ++ (io.write_uint32_be f.last_feedback_wallclock ++ io.write_uint32_be 0)
  unfolding after_seq
  drop_3 =
      drop-drop 2 1 3 (write_fci io f) refl
      ∙ ap (drop 1) drop_2
      ∙ drop-append 1 (io.write_uint8 f.n_loss) _ (laws.length-write_uint8 _)

  drop_4 :
      drop 4 (write_fci io f) ≡ io.write_uint32_be f.last_feedback_wallclock ++ io.write_uint32_be 0
  drop_4 =
      drop-drop 3 1 4 (write_fci io f) refl
      ∙ ap (drop 1) drop_3
      ∙ drop-append 1 (io.write_uint8 f.n_ecn) _ (laws.length-write_uint8 _)

  -- Feedback whose fields fit their widths is read as it was written.
  pub on_feedback_rtcp-write_fci :
      f.highest_seq < 2 ^ 16
      → f.n_loss < 2 ^ 8
      → f.n_ecn < 2 ^ 8
      → f.last_feedback_wallclock < 2 ^ 32
      → on_feedback_rtcp io (write_fci io f) ≡ record {
        timestamp = f.last_feedback_wallclock;
        highest_seq = f.highest_seq;
        n_loss = f.n_loss;
        n_ecn = f.n_ecn;
        qbit = false;
      }
  unfolding on_feedback_rtcp write_fci after_seq
  on_feedback_rtcp-write_fci a b c d =
      let time = ap io.read_uint32_be drop_4 ∙ laws.read-write_uint32_be _ _ ∙ mod-eq_of_lt d in
      let seq = laws.read-write_uint16_be f.highest_seq after_seq ∙ mod-eq_of_lt a in
      let loss = ap io.read_uint8 drop_2 ∙ laws.read-write_uint8 _ _ ∙ mod-eq_of_lt b in
      let ecn = ap io.read_uint8 drop_3 ∙ laws.read-write_uint8 _ _ ∙ mod-eq_of_lt c in
      λ i. record {
        timestamp = time i;
        highest_seq = seq i;
        n_loss = loss i;
        n_ecn = ecn i;
        qbit = false;
      }
