-- ===== src/Protocol/RoundTrip.antt =====
-- An open request that one side writes is read back by the other side as it was.
use mathlib.Core.List.{append-nil}
use native.Mathlib.Nat.{le_refl, mod-eq_of_lt}
use openwebrtc.Prelude.{
  ℕ, zero, suc, ◌+◌, ◌%◌, ◌^◌, ◌<◌, ◌≡◌, ◌≢◌, refl, sym, ap, ◌∙◌, ◌⊎◌, Bool, true, false, List, [],
  ◌∷◌, ◌++◌, arith, length, drop, All, drop-append, drop-drop, take-of_le,
}
use openwebrtc.Prelude.Int.{ℤ, pos, negsuc, minus_one, to_int32, to_uint32}
use openwebrtc.Gst.{ByteIo, IsByteIo}
use openwebrtc.Outcome.{ok}
use openwebrtc.Protocol.{
  strndup, OpenRequest, channel_type, reliability_param, is_ordered, read_retransmits,
  read_life_time, create_datachannel_open_request, parse_open_request, open_request,
}

-- A text without NUL is copied whole.
pub strndup-append : (s rest : List ℕ) → All (λ b. b ≢ 0) s → strndup (length s) (s ++ rest) ≡ ok s
unfolding strndup
strndup-append [] rest h = refl
strndup-append (x ∷ xs) rest h = ground (arith, strndup-append xs rest)

strndup_whole : (s : List ℕ) → All (λ b. b ≢ 0) s → strndup (length s) s ≡ ok s
strndup_whole s h = ap (strndup (length s)) (sym (append-nil s)) ∙ strndup-append s [] h

-- A limit that is not given, or a number of 16 bits: what the object's properties allow.
abbrev pub IsLimit : ℤ → Type 0
IsLimit (pos n) = n < 2 ^ 16
IsLimit (negsuc n) = n ≡ 0

-- The parameters that owr_data_channel_new accepts, with texts that fit their length fields.
pub record IsValid (r : OpenRequest) : Type 0 where
  pub life_time : IsLimit r.max_packet_life_time
  pub retransmits : IsLimit r.max_packet_retransmits
  pub one_limit : (r.max_packet_life_time ≡ minus_one) ⊎ (r.max_packet_retransmits ≡ minus_one)
  pub label_fits : length r.label < 2 ^ 16
  pub label_text : All (λ b. b ≢ 0) r.label
  pub protocol_fits : length r.protocol < 2 ^ 16
  pub protocol_text : All (λ b. b ≢ 0) r.protocol

abbrev ReadsBack : Bool → ℤ → ℤ → Type 0
ReadsBack ordered life_time retransmits =
    let kind = channel_type ordered life_time retransmits % 2 ^ 8 in
    let param = reliability_param life_time retransmits % 2 ^ 32 in
    (is_ordered kind ≡ ordered)
    × (read_life_time kind param ≡ life_time)
    × (read_retransmits kind param ≡ retransmits)

module _ (n : ℕ) (h : n < 2 ^ 16) where
  read_timed : (ordered : Bool) → ReadsBack ordered (pos n) minus_one
  unfolding channel_type reliability_param is_ordered read_life_time read_retransmits to_int32
      to_uint32
  read_timed true = (refl, ground arith, refl)
  read_timed false = (refl, ground arith, refl)

  read_remix : (ordered : Bool) → ReadsBack ordered minus_one (pos n)
  unfolding channel_type reliability_param is_ordered read_life_time read_retransmits to_int32
      to_uint32
  read_remix true = (refl, refl, ground arith)
  read_remix false = (refl, refl, ground arith)

read_reliable : (ordered : Bool) → ReadsBack ordered minus_one minus_one
unfolding channel_type is_ordered read_life_time read_retransmits
read_reliable true = (refl, refl, refl)
read_reliable false = (refl, refl, refl)

-- The channel type and the parameter determine the three properties.
reads_back :
    (ordered : Bool) (life_time retransmits : ℤ)
    → IsLimit life_time
    → IsLimit retransmits
    → (life_time ≡ minus_one) ⊎ (retransmits ≡ minus_one)
    → ReadsBack ordered life_time retransmits
reads_back o (pos m) (pos n) p q h = absurd (ground arith)
reads_back o (pos m) (negsuc zero) p q h = read_timed m p o
reads_back o (pos m) (negsuc (suc n)) p q h = absurd (omega arith)
reads_back o (negsuc zero) (pos n) p q h = read_remix n q o
reads_back o (negsuc (suc m)) (pos n) p q h = absurd (omega arith)
reads_back o (negsuc zero) (negsuc zero) p q h = read_reliable o
reads_back o (negsuc zero) (negsuc (suc n)) p q h = absurd (omega arith)
reads_back o (negsuc (suc m)) (negsuc n) p q h = absurd (omega arith)

-- Where the fields of a message of 12 bytes and more stand.
abbrev HaveWidths : List ℕ → List ℕ → List ℕ → List ℕ → List ℕ → List ℕ → Type 0
HaveWidths a b c d e f =
    (length a ≡ 1)
    × (length b ≡ 1)
    × (length c ≡ 2)
    × (length d ≡ 4)
    × (length e ≡ 2)
    × (length f ≡ 2)

module _ (a b c d e f rest : List ℕ) (w : HaveWidths a b c d e f) where
  abbrev frame : List ℕ
  frame = a ++ (b ++ (c ++ (d ++ (e ++ (f ++ rest)))))

  frame_1 : drop 1 frame ≡ b ++ (c ++ (d ++ (e ++ (f ++ rest))))
  frame_1 = drop-append 1 a _ w.0

  frame_2 : drop 2 frame ≡ c ++ (d ++ (e ++ (f ++ rest)))
  frame_2 = drop-drop 1 1 2 frame refl ∙ ap (drop 1) frame_1 ∙ drop-append 1 b _ w.1

  frame_4 : drop 4 frame ≡ d ++ (e ++ (f ++ rest))
  frame_4 = drop-drop 2 2 4 frame refl ∙ ap (drop 2) frame_2 ∙ drop-append 2 c _ w.2

  frame_8 : drop 8 frame ≡ e ++ (f ++ rest)
  frame_8 = drop-drop 4 4 8 frame refl ∙ ap (drop 4) frame_4 ∙ drop-append 4 d _ w.3

  frame_10 : drop 10 frame ≡ f ++ rest
  frame_10 = drop-drop 8 2 10 frame refl ∙ ap (drop 2) frame_8 ∙ drop-append 2 e _ w.4

  frame_12 : drop 12 frame ≡ rest
  frame_12 = drop-drop 10 2 12 frame refl ∙ ap (drop 2) frame_10 ∙ drop-append 2 f _ w.5

module _ (io : ByteIo) where
  open io use {read_uint8, read_uint16_be, read_uint32_be}

  parse_open_request-fields :
      (msg : List ℕ) {kind param label_len protocol_len : ℕ} {label protocol : List ℕ}
      → read_uint8 (drop 1 msg) ≡ kind
      → read_uint32_be (drop 4 msg) ≡ param
      → read_uint16_be (drop 8 msg) ≡ label_len
      → read_uint16_be (drop 10 msg) ≡ protocol_len
      → strndup label_len (drop 12 msg) ≡ ok label
      → strndup protocol_len (drop (12 + label_len) msg) ≡ ok protocol
      → parse_open_request io msg
        ≡ ok (record {
          ordered = is_ordered kind;
          max_packet_life_time = read_life_time kind param;
          max_packet_retransmits = read_retransmits kind param;
          label = label;
          protocol = protocol;
        })
  unfolding parse_open_request
  parse_open_request-fields msg e1 e4 e8 e10 e12 e = rw (e1, e4, e8, e10, e12, e)

module _ (io : ByteIo) (laws : IsByteIo io) where
  open io use {
    write_uint8, write_uint16_be, write_uint32_be, read_uint8, read_uint16_be, read_uint32_be,
  }
  open laws use {
    length-write_uint8, length-write_uint16_be, length-write_uint32_be, read-write_uint8,
    read-write_uint16_be, read-write_uint32_be,
  }

  -- Whatever the type and the parameter, the receiver reads them and the two texts.
  parse-create :
      (kind param priority : ℕ) (label protocol : List ℕ)
      → length label < 2 ^ 16
      → All (λ b. b ≢ 0) label
      → length protocol < 2 ^ 16
      → All (λ b. b ≢ 0) protocol
      → parse_open_request io
          (create_datachannel_open_request io kind param priority label
            (length label)
            protocol
            (length protocol)).0
        ≡ ok (record {
          ordered = is_ordered (kind % 2 ^ 8);
          max_packet_life_time = read_life_time (kind % 2 ^ 8) (param % 2 ^ 32);
          max_packet_retransmits = read_retransmits (kind % 2 ^ 8) (param % 2 ^ 32);
          label = label;
          protocol = protocol;
        })
  unfolding create_datachannel_open_request
  parse-create kind param priority label protocol lf lt pf pt =
      let a = write_uint8 3 in
      let b = write_uint8 kind in
      let c = write_uint16_be priority in
      let d = write_uint32_be param in
      let e = write_uint16_be (length label) in
      let f = write_uint16_be (length protocol) in
      let rest = label ++ protocol in
      let w : HaveWidths a b c d e f = (
        length-write_uint8 3,
        length-write_uint8 kind,
        length-write_uint16_be priority,
        length-write_uint32_be param,
        length-write_uint16_be (length label),
        length-write_uint16_be (length protocol),
      ) in
      let texts : drop 12 (frame a b c d e f rest w) ≡ rest = frame_12 a b c d e f rest w in
      rw
        (
          take-of_le (length label) label (le_refl _),
          take-of_le (length protocol) protocol (le_refl _),
        )
        (parse_open_request-fields io (frame a b c d e f rest w)
          (ap read_uint8 (frame_1 a b c d e f rest w) ∙ read-write_uint8 kind _)
          (ap read_uint32_be (frame_4 a b c d e f rest w) ∙ read-write_uint32_be param _)
          (ap read_uint16_be (frame_8 a b c d e f rest w)
            ∙ read-write_uint16_be (length label) _
            ∙ mod-eq_of_lt lf)
          (ap read_uint16_be (frame_10 a b c d e f rest w)
            ∙ read-write_uint16_be (length protocol) _
            ∙ mod-eq_of_lt pf)
          (ap (strndup (length label)) texts ∙ strndup-append label protocol lt)
          (ap (strndup (length protocol)) (
              drop-drop 12 (length label) (12 + length label) (frame a b c d e f rest w) refl
              ∙ ap (drop (length label)) texts
              ∙ drop-append (length label) label protocol refl)
            ∙ strndup_whole protocol pt))

  -- With byte macros that keep their laws, an open request for a channel with one limit at most, of
  -- 16 bits, and with texts of less than 65536 bytes and no NUL is read back by the receiver as it
  -- was: the order, both limits, the label and the protocol.
  pub parse-open_request :
      (r : OpenRequest) → IsValid r → parse_open_request io (open_request io r).0 ≡ ok r
  unfolding open_request
  parse-open_request r v =
      let q =
        reads_back r.ordered r.max_packet_life_time r.max_packet_retransmits v.life_time
          v.retransmits v.one_limit in
      rw (mod-eq_of_lt v.label_fits, mod-eq_of_lt v.protocol_fits)
        (parse-create (channel_type r.ordered r.max_packet_life_time r.max_packet_retransmits)
            (reliability_param r.max_packet_life_time r.max_packet_retransmits) 0 r.label r.protocol
            v.label_fits v.label_text v.protocol_fits v.protocol_text
          ∙ λ i. ok (record {
            ordered = q.0 i;
            max_packet_life_time = q.1 i;
            max_packet_retransmits = q.2 i;
            label = r.label;
            protocol = r.protocol;
          }))
