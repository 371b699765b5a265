-- ===== src/Controller/Memory.antt =====
-- Code that may stop the program, and the bytes of a C array: for lgv_controller/src/lgv_controller_node.cpp.
use cqut_lgv.Common.{
  ℕ, ◌+◌, ◌-◌, ◌*◌, ◌/◌, ◌%◌, ◌^◌, ◌<◌, ◌≤◌, ◌≡◌, Option, none, some, List, [], ◌∷◌, ltb,
  if◌then◌else◌, get_elem?, copy_into, arith,
}
use cqut_lgv.Common.Int.{ℤ, pos, pos_part, neg_part, sub_ℕ}

-- What stops the program: an access outside an array, or an exception that nothing catches.
pub data Stop : Type 0 where
  out_of_bounds : Stop
  uncaught : Stop

pub data Run {ℓ} (A : Type ℓ) : Type ℓ where
  ok : A → Run A
  stop : Stop → Run A

infixl 5 ◌>>=◌
abbrev pub ◌>>=◌ {ℓ κ} : {A : Type ℓ} {B : Type κ} → Run A → (A → Run B) → Run B
ok a >>= f = f a
stop s >>= f = stop s

-- A call of code that may throw.
abbrev pub called {ℓ} : {A : Type ℓ} → Option A → Run A
called none = stop uncaught
called (some a) = ok a

-- `buf[i]`
abbrev pub byte_at : List ℕ → ℕ → Run ℕ
byte_at buf i = elim (get_elem? buf i) [ none ↦ stop out_of_bounds | some b ↦ ok b ]

-- Sixteen bits as an `int16_t`, and back.
abbrev pub signed16 : ℕ → ℤ
signed16 w = if ltb w (2 ^ 15) then pos w else sub_ℕ w (2 ^ 16)

abbrev pub unsigned16 : ℤ → ℕ
unsigned16 z = (pos_part z + 2 ^ 16 - neg_part z) % 2 ^ 16

abbrev pub FitsInt16 : ℤ → Type 0
FitsInt16 z = (pos_part z < 2 ^ 15) × (neg_part z ≤ 2 ^ 15)

pub signed16-unsigned16 : (z : ℤ) → FitsInt16 z → signed16 (unsigned16 z) ≡ z
signed16-unsigned16 (pos n) h = ground arith
signed16-unsigned16 (ℤ.negsuc n) h = ground arith

-- `*(int16_t*)(buf + i)`, low byte first.
abbrev pub int16_at : List ℕ → ℕ → Run ℤ
int16_at buf i = do lo ← byte_at buf i; hi ← byte_at buf (i + 1); ok (signed16 (lo + 256 * hi))

-- The bits of `*(float*)(buf + i)`.
abbrev pub bits32_at : List ℕ → ℕ → Run ℕ
bits32_at buf i = do
  b0 ← byte_at buf i
  b1 ← byte_at buf (i + 1)
  b2 ← byte_at buf (i + 2)
  b3 ← byte_at buf (i + 3)
  ok (b0 + 256 * (b1 + 256 * (b2 + 256 * b3)))

-- The two bytes of an `int16_t`.
abbrev pub int16_bytes : ℤ → List ℕ
int16_bytes z = unsigned16 z % 256 ∷ unsigned16 z / 256 ∷ []

-- `*(int16_t*)(buf + i) = z`
abbrev pub set_int16 : List ℕ → ℕ → ℤ → List ℕ
set_int16 buf i z = copy_into buf i (int16_bytes z)
