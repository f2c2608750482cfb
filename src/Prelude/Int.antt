-- ===== src/Prelude/Int.antt =====
-- Signed integers over the native numbers, and the C conversions between gint and guint32.
use openwebrtc.Prelude.{
  ℕ, ◌-◌, ◌%◌, ◌^◌, ◌<◌, ◌≡◌, Bool, true, false, arith, ltb, ◌==◌, if◌then◌else◌,
}

-- `negsuc n` is -(n + 1).
pub data ℤ : Type 0 where
  pos : ℕ → ℤ
  negsuc : ℕ → ℤ

abbrev pub minus_one : ℤ
minus_one = negsuc 0

abbrev pub eqb_ℤ : ℤ → ℤ → Bool
eqb_ℤ (pos a) (pos b) = a == b
eqb_ℤ (negsuc a) (negsuc b) = a == b
eqb_ℤ _ _ = false

abbrev pub nonneg : ℤ → Bool
nonneg (pos n) = true
nonneg (negsuc n) = false

-- (guint32) n, for an n of 32 bits.
unfoldable pub to_uint32 : ℤ → ℕ
to_uint32 (pos n) = n % 2 ^ 32
to_uint32 (negsuc n) = 2 ^ 32 - 1 - n % 2 ^ 32

-- (gint) n, for a 32-bit n: two's complement.
unfoldable pub to_int32 : ℕ → ℤ
to_int32 n = if ltb n (2 ^ 31) then pos n else negsuc (2 ^ 32 - 1 - n)

pub eqb_ℤ_refl : (a : ℤ) → eqb_ℤ a a ≡ true
eqb_ℤ_refl (pos n) = ground arith
eqb_ℤ_refl (negsuc n) = ground arith

pub eqb_ℤ_sound : (a b : ℤ) → eqb_ℤ a b ≡ true → a ≡ b
eqb_ℤ_sound (pos a) (pos b) h = ground arith
eqb_ℤ_sound (pos a) (negsuc b) h = ground arith
eqb_ℤ_sound (negsuc a) (pos b) h = ground arith
eqb_ℤ_sound (negsuc a) (negsuc b) h = ground arith

pub to_int32-to_uint32 : (n : ℕ) → n < 2 ^ 31 → to_int32 (to_uint32 (pos n)) ≡ pos n
unfolding to_int32 to_uint32
to_int32-to_uint32 n h = ground arith
