-- ===== src/Sctp.antt =====
-- What the data channel code hands to the SCTP encoder: the identifiers of
-- transport/owr_data_channel_protocol.h, the reliability of a message, and the messages.
use openwebrtc.Prelude.{ℕ, Bool, List}

abbrev pub message_type_ack : ℕ
message_type_ack = 2

abbrev pub message_type_open_request : ℕ
message_type_open_request = 3

-- The channel types of an open request; the highest bit says unordered.
abbrev pub partial_reliable_remix : ℕ
partial_reliable_remix = 0x01

abbrev pub partial_reliable_remix_unordered : ℕ
partial_reliable_remix_unordered = 0x81

abbrev pub partial_reliable_timed : ℕ
partial_reliable_timed = 0x02

abbrev pub partial_reliable_timed_unordered : ℕ
partial_reliable_timed_unordered = 0x82

abbrev pub ppid_control : ℕ
ppid_control = 50

abbrev pub ppid_string : ℕ
ppid_string = 51

abbrev pub ppid_binary_partial : ℕ
ppid_binary_partial = 52

abbrev pub ppid_binary : ℕ
ppid_binary = 53

abbrev pub ppid_string_partial : ℕ
ppid_string_partial = 54

-- GstSctpSendMetaPartiallyReliability with its parameter.
pub data Reliability : Type 0 where
  reliable : Reliability
  rtx ttl : ℕ → Reliability

-- A buffer pushed to the encoder, with its send meta.
pub record Packet : Type 0 where
  pub stream : ℕ
  pub ppid : ℕ
  pub ordered : Bool
  pub reliability : Reliability
  pub payload : List ℕ
