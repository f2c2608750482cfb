-- ===== src/Agent/Reliability.antt =====
-- The reliability that the encoder's pad is asked for and the one that each message carries,
-- transport/owr_data_channel.c and transport/owr_transport_agent.c.
use openwebrtc.Prelude.{ℕ, ◌≡◌, ◌⊎◌, inl, inr, refl, false, Bool-cases, not, ◌&&◌, some, arith}
use openwebrtc.Prelude.Int.{ℤ, pos, negsuc, minus_one, eqb_ℤ}
use openwebrtc.DataChannel.{DataChannel}
use openwebrtc.DataChannel.Caps.{caps_reliability, create_caps}
use openwebrtc.Sctp.{ppid_string}
use openwebrtc.Protocol.RoundTrip.{IsLimit}
use openwebrtc.DataChannel.{SendCall}
use openwebrtc.Agent.Open.{new_info}
use openwebrtc.Agent.Send.{send_reliability, data_packet}

caps-agree :
    (life_time retransmits : ℤ)
    → IsLimit life_time
    → IsLimit retransmits
    → (life_time ≡ minus_one) ⊎ (retransmits ≡ minus_one)
    → caps_reliability life_time retransmits ≡ some (send_reliability life_time retransmits)
unfolding caps_reliability send_reliability
caps-agree (pos n) (pos m) p q h = absurd (ground arith)
caps-agree (pos n) (negsuc m) p q h = ground arith
caps-agree (negsuc n) (pos m) p q h = ground arith
caps-agree (negsuc n) (negsuc m) p q h = ground arith

not_both :
    (life_time retransmits : ℤ)
    → (life_time ≡ minus_one) ⊎ (retransmits ≡ minus_one)
    → (not (eqb_ℤ life_time minus_one) && not (eqb_ℤ retransmits minus_one)) ≡ false
not_both life_time retransmits (inl e) = rw e refl
not_both life_time retransmits (inr e) =
    rw e (elim (Bool-cases (not (eqb_ℤ life_time minus_one))) [
      | inl t ↦ rw t refl
      | inr t ↦ rw t refl
    ])

-- For a channel that this side has announced, with one limit at most and of 16 bits, the pad of the
-- encoder is asked for the order and the reliability that every message of the channel carries.
pub create_caps-data_packet :
    (c : DataChannel) (session_id stream : ℕ) (call : SendCall)
    → IsLimit c.max_packet_life_time
    → IsLimit c.max_retransmits
    → (c.max_packet_life_time ≡ minus_one) ⊎ (c.max_retransmits ≡ minus_one)
    → let packet = data_packet stream (new_info session_id c) call in
      create_caps c
      ≡ some (record {
        ordered = packet.ordered;
        ppid = ppid_string;
        reliability = some packet.reliability;
      })
unfolding create_caps new_info data_packet
create_caps-data_packet c session_id stream call p q h =
    rw
      (
        not_both c.max_packet_life_time c.max_retransmits h,
        caps-agree c.max_packet_life_time c.max_retransmits p q h,
      )
      refl
