-- ===== src/Scream/Queue.antt =====
-- The queue as a table: at most one entry for each source, the newest one,
-- transport/owr_transport_agent.c.
use openwebrtc.Prelude.{
  ℕ, ◌≡◌, refl, Bool, true, false, not, ◌&&◌, ◌||◌, Option, none, some, List, [], ◌∷◌, ◌++◌, All,
  arith, ◌==◌, if◌then◌else◌, inl, inr, Bool-cases, if_both, subst,
}
use openwebrtc.Prelude.Int.{ℤ, pos, negsuc, eqb_ℤ}
use openwebrtc.Scream.{ScreamRx}
use openwebrtc.Scream.Feedback.{
  Feedback, compare_rtcp_scream, delete_source, queue_feedback, RtpPacket, feedback_of,
  receive_packet, adapt_to, learn_payload, probe_rtp_info,
}

-- What is queued for a source: the first entry.
abbrev pub queued : ℕ → ℕ → List Feedback → Option Feedback
queued session ssrc [] = none
queued session ssrc (f ∷ fs) =
    if (f.session_id == session) && (f.ssrc == ssrc) then some f else queued session ssrc fs

abbrev pub IsAbsent : Feedback → List Feedback → Type 0
IsAbsent f = All (λ g. compare_rtcp_scream g f ≡ false)

-- No two entries are of one source.
abbrev pub Distinct : List Feedback → Type 0
Distinct [] = Unit
Distinct (f ∷ fs) = IsAbsent f fs × Distinct fs

IsAbsent-same :
    (f g : Feedback) (fs : List Feedback)
    → compare_rtcp_scream g f ≡ true
    → IsAbsent g fs
    → IsAbsent f fs
IsAbsent-same f g [] e h = tt
IsAbsent-same f g (k ∷ fs) e h = (ground (arith, h.0), IsAbsent-same f g fs e h.1)

IsAbsent-delete :
    (f g : Feedback) (fs : List Feedback) → IsAbsent g fs → IsAbsent g (delete_source f fs)
unfolding delete_source
IsAbsent-delete f g [] h = tt
IsAbsent-delete f g (k ∷ fs) h = elim (Bool-cases (compare_rtcp_scream k f)) [
  | inl e ↦ rw e h.1
  | inr e ↦ rw e (h.0, IsAbsent-delete f g fs h.1)
]

delete_source-IsAbsent :
    (f : Feedback) (fs : List Feedback) → Distinct fs → IsAbsent f (delete_source f fs)
unfolding delete_source
delete_source-IsAbsent f [] d = tt
delete_source-IsAbsent f (g ∷ fs) d = elim (Bool-cases (compare_rtcp_scream g f)) [
  | inl e ↦ rw e (IsAbsent-same f g fs e d.0)
  | inr e ↦ rw e (e, delete_source-IsAbsent f fs d.1)
]

delete_source-Distinct :
    (f : Feedback) (fs : List Feedback) → Distinct fs → Distinct (delete_source f fs)
unfolding delete_source
delete_source-Distinct f [] d = tt
delete_source-Distinct f (g ∷ fs) d = elim (Bool-cases (compare_rtcp_scream g f)) [
  | inl e ↦ rw e d.1
  | inr e ↦ rw e (IsAbsent-delete f g fs d.0, delete_source-Distinct f fs d.1)
]

IsAbsent-append :
    (f g : Feedback) (fs : List Feedback)
    → compare_rtcp_scream f g ≡ false
    → IsAbsent g fs
    → IsAbsent g (fs ++ f ∷ [])
IsAbsent-append f g [] e h = (e, tt)
IsAbsent-append f g (k ∷ fs) e h = (h.0, IsAbsent-append f g fs e h.1)

append-Distinct :
    (f : Feedback) (fs : List Feedback) → IsAbsent f fs → Distinct fs → Distinct (fs ++ f ∷ [])
append-Distinct f [] h d = (tt, tt)
append-Distinct f (g ∷ fs) h d =
    (IsAbsent-append f g fs (ground (arith, h.0)) d.0, append-Distinct f fs h.1 d.1)

pub queue_feedback-Distinct :
    (f : Feedback) (fs : List Feedback) → Distinct fs → Distinct (queue_feedback f fs)
unfolding queue_feedback
queue_feedback-Distinct f fs d =
    append-Distinct f (delete_source f fs) (delete_source-IsAbsent f fs d)
      (delete_source-Distinct f fs d)

queued-append_absent :
    (f : Feedback) (fs : List Feedback)
    → IsAbsent f fs
    → queued f.session_id f.ssrc (fs ++ f ∷ []) ≡ some f
queued-append_absent f [] h = ground arith
queued-append_absent f (g ∷ fs) h = ground (arith, queued-append_absent f fs h.1, h.0)

module _ (session ssrc : ℕ) (f : Feedback)
    (other : ((f.session_id == session) && (f.ssrc == ssrc)) ≡ false) where
  queued-append_other :
      (fs : List Feedback) → queued session ssrc (fs ++ f ∷ []) ≡ queued session ssrc fs
  queued-append_other [] = ground (arith, other)
  queued-append_other (g ∷ fs) = ground (arith, queued-append_other fs)

  queued-delete_other :
      (fs : List Feedback)
      → queued session ssrc (delete_source f fs ++ f ∷ []) ≡ queued session ssrc fs
  unfolding delete_source
  queued-delete_other [] = ground (arith, other)
  queued-delete_other (g ∷ fs) = elim (Bool-cases (compare_rtcp_scream g f)) [
    | inl e ↦ rw e (ground (arith, other, queued-append_other fs))
    | inr e ↦ rw e (ground (arith, queued-delete_other fs))
  ]

queued-queue_feedback :
    (session ssrc : ℕ) (f : Feedback) (fs : List Feedback)
    → Distinct fs
    → queued session ssrc (queue_feedback f fs)
      ≡ (if (f.session_id == session) && (f.ssrc == ssrc) then some f else queued session ssrc fs)
unfolding queue_feedback
queued-queue_feedback session ssrc f fs d =
    elim (Bool-cases ((f.session_id == session) && (f.ssrc == ssrc))) [
      | inl e ↦
          let a : f.session_id ≡ session = ground arith in
          let b : f.ssrc ≡ ssrc = ground arith in
          rw e (
            subst (λ k. queued k ssrc (delete_source f fs ++ f ∷ []) ≡ some f) a
              (subst (λ k. queued f.session_id k (delete_source f fs ++ f ∷ []) ≡ some f) b
                (queued-append_absent f (delete_source f fs) (delete_source-IsAbsent f fs d))))
      | inr e ↦ rw e (queued-delete_other session ssrc f e fs)
    ]

adapt_to-Distinct :
    (time : Option ℕ) (packet : RtpPacket) (rx : ScreamRx) (fs : List Feedback)
    → Distinct fs
    → Distinct (adapt_to time packet rx fs).1
unfolding adapt_to
adapt_to-Distinct none packet rx fs d = d
adapt_to-Distinct (some time) packet rx fs d =
    if_both (λ (r : ScreamRx × List Feedback). Distinct r.1)
      (eqb_ℤ (pos packet.payload_type) rx.rtx_pt) _ _ d (queue_feedback-Distinct _ fs d)

-- Whatever packet the probe sees, the queue goes on holding one entry for a source at most.
pub probe_rtp_info-Distinct :
    (receive_payload : ℕ → ℤ × Bool) (packet : RtpPacket) (rx : ScreamRx) (fs : List Feedback)
    → Distinct fs
    → Distinct (probe_rtp_info receive_payload packet rx fs).1
unfolding probe_rtp_info
probe_rtp_info-Distinct receive_payload packet rx fs d =
    let learnt = learn_payload receive_payload packet.payload_type rx in
    if_both (λ (r : ScreamRx × List Feedback). Distinct r.1)
      ((eqb_ℤ rx.rtx_pt (negsuc 1) || rx.adapt) && not packet.mapped) _ _ d
      (if_both (λ (r : ScreamRx × List Feedback). Distinct r.1) learnt.adapt _ _
        (adapt_to-Distinct packet.arrival_time packet learnt fs d) d)

-- A packet with an arrival time that is mapped, does not carry a retransmission and comes while
-- SCReAM is in use replaces what is queued for its source by the new state of the session, and
-- leaves what is queued for every other source, if the queue has one entry per source at most.
pub queued-probe_rtp_info :
    (receive_payload : ℕ → ℤ × Bool) (packet : RtpPacket) (rx : ScreamRx) (fs : List Feedback)
    (time session ssrc : ℕ)
    → let learnt = learn_payload receive_payload packet.payload_type rx in
      let after = probe_rtp_info receive_payload packet rx fs in
      Distinct fs
      → packet.mapped ≡ true
      → packet.arrival_time ≡ some time
      → learnt.adapt ≡ true
      → eqb_ℤ (pos packet.payload_type) learnt.rtx_pt ≡ false
      → (after.0 ≡ receive_packet time packet learnt)
        × (queued session ssrc after.1 ≡ (
            let f = feedback_of after.0 packet.ssrc in
            if (f.session_id == session) && (f.ssrc == ssrc)
            then some f
            else queued session ssrc fs))
unfolding probe_rtp_info adapt_to
queued-probe_rtp_info receive_payload packet rx fs time session ssrc d mapped arrived adapts fresh =
    let learnt = learn_payload receive_payload packet.payload_type rx in
    let on : ((eqb_ℤ rx.rtx_pt (negsuc 1) || rx.adapt) && not packet.mapped) ≡ false =
      ground (arith, mapped) in
    (
      simp (on, adapts, arrived, fresh) refl,
      simp (on, adapts, arrived, fresh)
          (queued-queue_feedback session ssrc
            (feedback_of (receive_packet time packet learnt) packet.ssrc) fs d),
    )
