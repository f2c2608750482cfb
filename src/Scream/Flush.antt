-- ===== src/Scream/Flush.antt =====
-- What leaves the queue with an RTCP packet, transport/owr_transport_agent.c.
use openwebrtc.Prelude.{
  ℕ, suc, ◌≡◌, ◌↔◌, refl, ap, Bool, true, false, not, ◌&&◌, ◌||◌, List, [], ◌∷◌, ◌==◌,
  if◌then◌else◌, inl, inr, Bool-cases,
}
use openwebrtc.Gst.{ByteIo}
use openwebrtc.Scream.Feedback.{
  Feedback, FeedbackPacket, write_fci, Room, flush, is_empty, on_sending_rtcp,
}

-- The entries of one session, and those of the others.
abbrev pub of_session : ℕ → List Feedback → List Feedback
of_session s [] = []
of_session s (f ∷ fs) = let rest = of_session s fs in if s == f.session_id then f ∷ rest else rest

abbrev pub of_others : ℕ → List Feedback → List Feedback
of_others s [] = []
of_others s (f ∷ fs) = let rest = of_others s fs in if s == f.session_id then rest else f ∷ rest

abbrev pub packets : ByteIo → List Feedback → List FeedbackPacket
packets io [] = []
packets io (f ∷ fs) = record { media_ssrc = f.ssrc; fci = write_fci io f } ∷ packets io fs

-- A queue that is divided, in its order, into what stays and what is sent; only entries of the
-- session are sent.
pub data Divided (s : ℕ) : (fs stays sent : List Feedback) → Type 0 where
  divided_end : Divided s [] [] []
  entry_stays :
      {fs stays sent : List Feedback} (f : Feedback)
      → Divided s fs stays sent
      → Divided s (f ∷ fs) (f ∷ stays) sent
  entry_sent :
      {fs stays sent : List Feedback} (f : Feedback)
      → (s == f.session_id) ≡ true
      → Divided s fs stays sent
      → Divided s (f ∷ fs) stays (f ∷ sent)

suppressed :
    (has_feedback : Bool) (ps : List FeedbackPacket)
    → ((has_feedback || not (is_empty ps)) ≡ false) ↔ ((has_feedback ≡ false) × (ps ≡ []))
suppressed true ps = (λ h. cc, λ h. h.0)
suppressed false [] = (λ h. (refl, refl), λ h. refl)
suppressed false (p ∷ ps) = (λ h. cc, λ h. cc)

module _ (io : ByteIo) (room : ℕ → Room) (s : ℕ) where
  flush-room :
      ((n : ℕ) → ((room n).packet && (room n).fci) ≡ true)
      → (n : ℕ) (fs : List Feedback)
      → flush io room n s fs ≡ (of_others s fs, packets io (of_session s fs))
  unfolding flush
  flush-room all n [] = refl
  flush-room all n (f ∷ fs) = elim (Bool-cases (s == f.session_id)) [
    | inl e ↦ rw (e, all n, flush-room all (suc n) fs) refl
    | inr e ↦ rw (e, flush-room all n fs) refl
  ]

  flush-others :
      (n : ℕ) (fs : List Feedback) → of_others s (flush io room n s fs).0 ≡ of_others s fs
  unfolding flush
  flush-others n [] = refl
  flush-others n (f ∷ fs) = elim (Bool-cases (s == f.session_id)) [
    | inl e ↦ rw e (elim (Bool-cases ((room n).packet && (room n).fci)) [
      | inl g ↦ rw (g, flush-others (suc n) fs) refl
      | inr g ↦ rw (g, e) (flush-others (suc n) fs)
    ])
    | inr e ↦ rw (e, e, flush-others n fs) refl
  ]

  -- The entries that are sent as packets, and that with what stays they make up the queue.
  abbrev Divides : List Feedback → List Feedback × List FeedbackPacket → Type 0
  Divides fs r = (sent : List Feedback) × (r.1 ≡ packets io sent) × Divided s fs r.0 sent

  flush-Divided : (n : ℕ) (fs : List Feedback) → Divides fs (flush io room n s fs)
  unfolding flush
  flush-Divided n [] = ([], refl, divided_end)
  flush-Divided n (f ∷ fs) = elim (Bool-cases (s == f.session_id)) [
    | inl e ↦
        let (sent, p, d) = flush-Divided (suc n) fs in
        rw e (elim (Bool-cases ((room n).packet && (room n).fci)) [
          | inl g ↦ rw g (
            f ∷ sent,
            ap (λ ps. record { media_ssrc = f.ssrc; fci = write_fci io f } ∷ ps) p,
            entry_sent f e d,
          )
          | inr g ↦ rw g (sent, p, entry_stays f d)
        ])
    | inr e ↦ let (sent, p, d) = flush-Divided n fs in rw e (sent, p, entry_stays f d)
  ]

  -- Whatever room GStreamer gives, an RTCP packet that leaves divides the queue, in its order, into
  -- the entries that stay as they are and those that are sent, each with its source and its control
  -- information: each entry is in just one of the two, and only entries of the session are sent, so
  -- that those of other sessions stay. The packet is suppressed just if it held no feedback before
  -- and nothing is sent with it.
  pub on_sending_rtcp-keeps :
      (has_feedback : Bool) (fs : List Feedback)
      → let r = on_sending_rtcp io room s has_feedback fs in
        ((sent : List Feedback) × (r.0.1 ≡ packets io sent) × Divided s fs r.0.0 sent)
        × (of_others s r.0.0 ≡ of_others s fs)
        × ((r.1 ≡ false) ↔ ((has_feedback ≡ false) × (r.0.1 ≡ [])))
  unfolding on_sending_rtcp
  on_sending_rtcp-keeps has_feedback fs =
      (flush-Divided 0 fs, flush-others 0 fs, suppressed has_feedback _)

  -- With room for every packet, exactly the entries of the session are sent, in their order, and
  -- exactly those of the other sessions stay, in theirs.
  pub on_sending_rtcp-room :
      ((n : ℕ) → ((room n).packet && (room n).fci) ≡ true)
      → (has_feedback : Bool) (fs : List Feedback)
      → (on_sending_rtcp io room s has_feedback fs).0
        ≡ (of_others s fs, packets io (of_session s fs))
  unfolding on_sending_rtcp
  on_sending_rtcp-room all has_feedback fs = flush-room all 0 fs
