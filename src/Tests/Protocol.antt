-- ===== src/Tests/Protocol.antt =====
-- An open request for a timed channel, written and read back.
use openwebrtc.Prelude.{◌≡◌, refl, inr, false, [], ◌∷◌, arith}
use openwebrtc.Prelude.Int.{pos, minus_one}
use openwebrtc.Outcome.{ok}
use openwebrtc.Protocol.{OpenRequest, open_request, parse_open_request}
use openwebrtc.Protocol.RoundTrip.{IsValid, parse-open_request}
use openwebrtc.Tests.Wire.{big_endian, big_endian-IsByteIo}

abbrev chat : OpenRequest
chat = record {
  ordered = false;
  max_packet_life_time = pos 500;
  max_packet_retransmits = minus_one;
  label = 99 ∷ 104 ∷ [];
  protocol = 112 ∷ [];
}

chat-IsValid : IsValid chat
chat-IsValid = record {
  life_time = omega arith;
  retransmits = refl;
  one_limit = inr refl;
  label_fits = omega arith;
  label_text = omega arith;
  protocol_fits = omega arith;
  protocol_text = omega arith;
}

parse-open_request_example :
    parse_open_request big_endian (open_request big_endian chat).0 ≡ ok chat
parse-open_request_example = parse-open_request big_endian big_endian-IsByteIo chat chat-IsValid
