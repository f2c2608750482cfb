-- ===== src/Tests/Wire.antt =====
-- GStreamer's big-endian byte macros, as functions on lists of bytes.
use openwebrtc.Prelude.{ℕ, ◌+◌, ◌*◌, ◌/◌, ◌%◌, refl, List, [], ◌∷◌, arith}
use openwebrtc.Gst.{ByteIo, IsByteIo}

abbrev pub be_uint8 : ℕ → List ℕ
be_uint8 n = n % 256 ∷ []

abbrev pub be_uint16 : ℕ → List ℕ
be_uint16 n = n / 256 % 256 ∷ n % 256 ∷ []

abbrev pub be_uint32 : ℕ → List ℕ
be_uint32 n = n / 16777216 % 256 ∷ n / 65536 % 256 ∷ n / 256 % 256 ∷ n % 256 ∷ []

abbrev pub from_uint8 : List ℕ → ℕ
from_uint8 (a ∷ _) = a
from_uint8 _ = 0

abbrev pub from_uint16 : List ℕ → ℕ
from_uint16 (a ∷ b ∷ _) = a * 256 + b
from_uint16 _ = 0

abbrev pub from_uint32 : List ℕ → ℕ
from_uint32 (a ∷ b ∷ c ∷ d ∷ _) = a * 16777216 + b * 65536 + c * 256 + d
from_uint32 _ = 0

abbrev pub big_endian : ByteIo
big_endian = record {
  write_uint8 = be_uint8;
  write_uint16_be = be_uint16;
  write_uint32_be = be_uint32;
  read_uint8 = from_uint8;
  read_uint16_be = from_uint16;
  read_uint32_be = from_uint32;
}

pub big_endian-IsByteIo : IsByteIo big_endian
big_endian-IsByteIo = record {
  length-write_uint8 = λ n. refl;
  length-write_uint16_be = λ n. refl;
  length-write_uint32_be = λ n. refl;
  read-write_uint8 = λ n rest. omega arith;
  read-write_uint16_be = λ n rest. omega arith;
  read-write_uint32_be = λ n rest. omega arith;
}
