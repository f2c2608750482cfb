-- ===== src/Protocol/Safety.antt =====
-- Whether reading an open request stays inside the message, transport/owr_transport_agent.c.
use openwebrtc.Prelude.{
  ℕ, zero, suc, ◌+◌, ◌-◌, ◌≤◌, ◌<◌, ◌≡◌, ◌≢◌, refl, inl, inr, Bool-cases, List, [], ◌∷◌, arith,
  length, drop, All, ◌==◌,
}
use openwebrtc.Gst.{ByteIo}
use openwebrtc.Outcome.{ok, fault, out_of_bounds}
use openwebrtc.Protocol.{
  strndup, OpenRequest, parse_open_request, is_ordered, read_life_time, read_retransmits,
}

strndup-of_le : (n : ℕ) (xs : List ℕ) → n ≤ length xs → (s : List ℕ) × (strndup n xs ≡ ok s)
unfolding strndup
strndup-of_le zero xs h = ([], refl)
strndup-of_le (suc n) [] h = absurd (omega arith)
strndup-of_le (suc n) (x ∷ xs) h =
    let ih = strndup-of_le n xs (omega arith) in
    elim (Bool-cases (x == 0)) [ inl e ↦ ([], rw e refl) | inr e ↦ (x ∷ ih.0, rw (e, ih.1) refl) ]

strndup-beyond :
    (n : ℕ) (xs : List ℕ) → length xs < n → All (λ b. b ≢ 0) xs → strndup n xs ≡ fault out_of_bounds
unfolding strndup
strndup-beyond zero xs h w = absurd (omega arith)
strndup-beyond (suc n) [] h w = refl
strndup-beyond (suc n) (x ∷ xs) h w = ground (arith, strndup-beyond n xs)

length-drop : (n : ℕ) (xs : List ℕ) → length (drop n xs) ≡ length xs - n
length-drop zero xs = omega arith
length-drop (suc n) [] = omega arith
length-drop (suc n) (x ∷ xs) = omega (arith, length-drop n xs)

module _ (io : ByteIo) (msg : List ℕ) where
  abbrev pub label_len : ℕ
  label_len = io.read_uint16_be (drop 8 msg)

  abbrev pub protocol_len : ℕ
  protocol_len = io.read_uint16_be (drop 10 msg)

  -- What is read beside the two texts.
  abbrev request_read : List ℕ → List ℕ → OpenRequest
  request_read label protocol =
      let kind = io.read_uint8 (drop 1 msg) in
      let param = io.read_uint32_be (drop 4 msg) in
      record {
        ordered = is_ordered kind;
        max_packet_life_time = read_life_time kind param;
        max_packet_retransmits = read_retransmits kind param;
        label = label;
        protocol = protocol;
      }

  -- A message that is at least as long as its two length fields say is read inside its bounds,
  -- whatever its bytes are.
  pub parse_open_request-in_bounds :
      12 + label_len + protocol_len ≤ length msg
      → (r : OpenRequest) × (parse_open_request io msg ≡ ok r)
  unfolding parse_open_request
  parse_open_request-in_bounds h =
      let label = strndup-of_le label_len (drop 12 msg) (omega (arith, length-drop 12 msg)) in
      let protocol =
        strndup-of_le protocol_len (drop (12 + label_len) msg)
          (omega (arith, length-drop (12 + label_len) msg)) in
      (request_read label.0 protocol.0, rw (label.1, protocol.1) refl)

  -- A message of 12 bytes at least whose label field reaches past its end, and that has no zero
  -- byte from the label on, is read out of bounds: the code has no check that prevents it.
  pub parse_open_request-beyond :
      12 ≤ length msg
      → length msg < 12 + label_len
      → All (λ b. b ≢ 0) (drop 12 msg)
      → parse_open_request io msg ≡ fault out_of_bounds
  unfolding parse_open_request
  parse_open_request-beyond long short w =
      rw (strndup-beyond label_len (drop 12 msg) (omega (arith, length-drop 12 msg)) w) refl
