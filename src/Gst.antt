-- ===== src/Gst.antt =====
-- What the transport code takes from GStreamer's byte macros, GST_WRITE_UINT*_BE and
-- GST_READ_UINT*_BE: a write stores so many bytes, and a read of what was written gives the value
-- back, cut to the width. A buffer is a list of bytes; `data + n` is `drop n data`.
use openwebrtc.Prelude.{ℕ, ◌%◌, ◌^◌, ◌≡◌, List, ◌++◌, length}

pub record ByteIo : Type 0 where
  pub write_uint8 : ℕ → List ℕ
  pub write_uint16_be : ℕ → List ℕ
  pub write_uint32_be : ℕ → List ℕ
  pub read_uint8 : List ℕ → ℕ
  pub read_uint16_be : List ℕ → ℕ
  pub read_uint32_be : List ℕ → ℕ

pub record IsByteIo (io : ByteIo) : Type 0 where
  pub length-write_uint8 : (n : ℕ) → length (io.write_uint8 n) ≡ 1
  pub length-write_uint16_be : (n : ℕ) → length (io.write_uint16_be n) ≡ 2
  pub length-write_uint32_be : (n : ℕ) → length (io.write_uint32_be n) ≡ 4
  pub read-write_uint8 :
      (n : ℕ) (rest : List ℕ) → io.read_uint8 (io.write_uint8 n ++ rest) ≡ n % 2 ^ 8
  pub read-write_uint16_be :
      (n : ℕ) (rest : List ℕ) → io.read_uint16_be (io.write_uint16_be n ++ rest) ≡ n % 2 ^ 16
  pub read-write_uint32_be :
      (n : ℕ) (rest : List ℕ) → io.read_uint32_be (io.write_uint32_be n ++ rest) ≡ n % 2 ^ 32
