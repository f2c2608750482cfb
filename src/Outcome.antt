-- ===== src/Outcome.antt =====
-- What a run of C code may come to: a value, or a fault that stops the program or its thread.
use openwebrtc.Prelude.{◌≡◌, refl, subst, Bool, true, false, Option, none, some, if◌then◌else◌}

pub data Fault : Type 0 where
  assertion : Fault  -- g_assert fails
  null_pointer : Fault  -- a NULL pointer is read through
  deadlock : Fault  -- a lock is taken that is never released
  out_of_bounds : Fault  -- memory outside a buffer is read
  use_after_free : Fault  -- memory is used that has been freed

pub data Outcome {ℓ} (A : Type ℓ) : Type ℓ where
  ok : A → Outcome A
  fault : Fault → Outcome A

infixl 5 ◌>>=◌ ◌>>◌
abbrev pub ◌>>=◌ {ℓ κ} : {A : Type ℓ} {B : Type κ} → Outcome A → (A → Outcome B) → Outcome B
ok a >>= f = f a
fault e >>= f = fault e

abbrev pub ◌>>◌ {ℓ} : {B : Type ℓ} → Outcome (Unit {0}) → Outcome B → Outcome B
m >> k = m >>= λ _. k

-- A pointer that the code reads through with no check, or after g_assert.
abbrev pub require {ℓ} : {A : Type ℓ} → Option A → Fault → Outcome A
require none e = fault e
require (some a) e = ok a

abbrev pub check : Bool → Fault → Outcome (Unit {0})
check true e = ok tt
check false e = fault e

-- A run either stops by a fault or ends in a value with P.
abbrev pub Ensures {ℓ κ} : {A : Type ℓ} → (A → Type κ) → Outcome A → Type κ
Ensures P (ok a) = P a
Ensures P (fault e) = Unit

module _ {ℓ κ} {A : Type ℓ} (P : A → Type κ) where
  pub bind-Ensures {μ ν} :
      {B : Type μ} (Q : B → Type ν) (m : Outcome B) (f : B → Outcome A)
      → Ensures Q m
      → ((b : B) → Q b → Ensures P (f b))
      → Ensures P (m >>= f)
  bind-Ensures Q (ok b) f h k = k b h
  bind-Ensures Q (fault e) f h k = tt

  pub bind_any-Ensures {μ} :
      {B : Type μ} (m : Outcome B) (f : B → Outcome A)
      → ((b : B) → Ensures P (f b))
      → Ensures P (m >>= f)
  bind_any-Ensures (ok b) f k = k b
  bind_any-Ensures (fault e) f k = tt

  pub require-Ensures {μ} :
      {B : Type μ} (o : Option B) (e : Fault) (f : B → Outcome A)
      → ((b : B) → o ≡ some b → Ensures P (f b))
      → Ensures P (require o e >>= f)
  require-Ensures none e f k = tt
  require-Ensures (some b) e f k = k b refl

  pub check-Ensures :
      (c : Bool) (e : Fault) (m : Outcome A) → (c ≡ true → Ensures P m) → Ensures P (check c e >> m)
  check-Ensures true e m k = k refl
  check-Ensures false e m k = tt

  pub if-Ensures :
      (c : Bool) (m n : Outcome A)
      → (c ≡ true → Ensures P m)
      → (c ≡ false → Ensures P n)
      → Ensures P (if c then m else n)
  if-Ensures true m n k l = k refl
  if-Ensures false m n k l = l refl

  pub run-Ensures : {m : Outcome A} {a : A} → Ensures P m → m ≡ ok a → P a
  run-Ensures h e = subst (Ensures P) e h
