-- ===== src/DataChannel/Caps.antt =====
-- The capabilities that a data channel asks of the SCTP encoder, transport/owr_data_channel.c.
use openwebrtc.Prelude.{ℕ, Bool, not, ◌&&◌, Option, none, some, if◌then◌else◌}
use openwebrtc.Prelude.Int.{ℤ, minus_one, eqb_ℤ, nonneg, to_uint32}
use openwebrtc.Sctp.{ppid_string, Reliability, reliable, rtx, ttl}
use openwebrtc.DataChannel.{DataChannel}

pub record SctpCaps : Type 0 where
  pub ordered : Bool
  pub ppid : ℕ
  pub reliability : Option Reliability

-- The fields that _owr_data_channel_create_caps sets, if any.
unfoldable pub caps_reliability : ℤ → ℤ → Option Reliability
caps_reliability life_time retransmits =
    if eqb_ℤ life_time minus_one && eqb_ℤ retransmits minus_one
    then some reliable
    else if nonneg retransmits
    then some (rtx (to_uint32 retransmits))
    else if nonneg life_time
    then some (ttl (to_uint32 life_time))
    else none

unfoldable pub create_caps : DataChannel → Option SctpCaps
unfolding caps_reliability
create_caps c =
    if not (eqb_ℤ c.max_packet_life_time minus_one) && not (eqb_ℤ c.max_retransmits minus_one)
    then none
    else some (record {
      ordered = c.ordered;
      ppid = ppid_string;
      reliability = caps_reliability c.max_packet_life_time c.max_retransmits;
    })
