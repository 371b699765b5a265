-- ===== src/Common/Bits.antt =====
-- Laws of `^` on bytes and wider words, from the digit recursion that it stands for.
use Prim.Native.Nat.{
  ℕ, zero, suc, ◌+◌, ◌*◌, ◌/◌, ◌%◌, ◌^◌, ◌≤◌, ◌<◌, bit_xor, digits, differ, bit_xor-bitwise,
}
use mathlib.Core.Path.{◌≡◌, refl, sym, ap, ◌∙◌}
use mathlib.Core.Logic.{◌⊎◌}
use mathlib.Core.Bool.{Bool, true, ◌&&◌}
use native.Mathlib.Nat.{pow-suc}
use native.Mathlib.Omega.{arith}

-- The recursion on digits gives the same with any fuel that is at least its first word.
abbrev xor_with : ℕ → ℕ → ℕ → ℕ
xor_with fuel = digits (λ rest. rest) differ fuel

xor_with_enough :
    (a b fuel fuel' : ℕ) → a ≤ fuel' → a ≤ fuel → xor_with fuel a b ≡ xor_with fuel' a b
xor_with_enough (suc a) b (suc fuel) (suc fuel') hi lo =
    rw (xor_with_enough (suc a / 2) (b / 2) fuel fuel' (omega arith) (omega arith))
xor_with_enough (suc a) b zero fuel' hi lo = absurd (omega arith)
xor_with_enough (suc a) b (suc fuel) zero hi lo = absurd (omega arith)
xor_with_enough zero b (suc fuel) (suc fuel') hi lo = refl
xor_with_enough zero b (suc fuel) zero hi lo = refl
xor_with_enough zero b zero (suc fuel') hi lo = refl
xor_with_enough zero b zero zero hi lo = refl

zero-bit_xor : (b : ℕ) → bit_xor 0 b ≡ b
zero-bit_xor b = bit_xor-bitwise 0 b

pub bit_xor_step : (a b : ℕ) → bit_xor a b ≡ bit_xor (a / 2) (b / 2) * 2 + differ (a % 2) (b % 2)
bit_xor_step zero b = omega (arith, zero-bit_xor b, zero-bit_xor (b / 2))
bit_xor_step (suc a) b = omega (
  arith,
  bit_xor-bitwise (suc a) b,
  bit_xor-bitwise (suc a / 2) (b / 2),
  xor_with_enough (suc a / 2) (b / 2) a (suc a / 2) (omega arith) (omega arith),
)

-- A number is zero, or its half with a last digit.
digit-cases : (a : ℕ) → (a % 2 ≡ 0) ⊎ (a % 2 ≡ 1)
digit-cases a = omega arith

differ-lt : (x y : ℕ) → x < 2 → y < 2 → differ x y < 2
differ-lt zero y p q = q
differ-lt (suc zero) zero p q = omega arith
differ-lt (suc zero) (suc zero) p q = omega arith
differ-lt (suc zero) (suc (suc y)) p q = absurd (omega arith)
differ-lt (suc (suc x)) y p q = absurd (omega arith)

differ_comm : (x y : ℕ) → differ x y ≡ differ y x
differ_comm zero zero = refl
differ_comm zero (suc y) = refl
differ_comm (suc x) zero = refl
differ_comm (suc x) (suc y) = differ_comm x y

differ_cancel : (x y : ℕ) → x < 2 → y < 2 → differ (differ x y) y ≡ x
differ_cancel zero zero p q = refl
differ_cancel zero (suc zero) p q = refl
differ_cancel (suc zero) zero p q = refl
differ_cancel (suc zero) (suc zero) p q = refl
differ_cancel x (suc (suc y)) p q = absurd (omega arith)
differ_cancel (suc (suc x)) y p q = absurd (omega arith)

mod-two : (a : ℕ) → a % 2 < 2
mod-two a = omega arith

-- The halves and the last digit of an exclusive or.
bit_xor_parts :
    (a b : ℕ)
    → (bit_xor a b / 2 ≡ bit_xor (a / 2) (b / 2)) × (bit_xor a b % 2 ≡ differ (a % 2) (b % 2))
bit_xor_parts a b =
    omega (arith, bit_xor_step a b, differ-lt (a % 2) (b % 2) (mod-two a) (mod-two b))

bit_xor_comm_fuel : (n a b : ℕ) → a ≤ n → b ≤ n → bit_xor a b ≡ bit_xor b a
bit_xor_comm_fuel zero zero zero p q = refl
bit_xor_comm_fuel zero (suc a) b p q = absurd (omega arith)
bit_xor_comm_fuel zero a (suc b) p q = absurd (omega arith)
bit_xor_comm_fuel (suc n) a b p q = omega (
  arith,
  bit_xor_step a b,
  bit_xor_step b a,
  differ_comm (a % 2) (b % 2),
  bit_xor_comm_fuel n (a / 2) (b / 2) (omega arith) (omega arith),
)

pub bit_xor_comm : (a b : ℕ) → bit_xor a b ≡ bit_xor b a
bit_xor_comm a b = bit_xor_comm_fuel (a + b) a b (omega arith) (omega arith)

bit_xor_cancel_fuel : (n a b : ℕ) → a ≤ n → b ≤ n → bit_xor (bit_xor a b) b ≡ a
bit_xor_cancel_fuel zero zero zero p q = refl
bit_xor_cancel_fuel zero (suc a) b p q = absurd (omega arith)
bit_xor_cancel_fuel zero a (suc b) p q = absurd (omega arith)
bit_xor_cancel_fuel (suc n) a b p q =
    rw (bit_xor_step (bit_xor a b) b, (bit_xor_parts a b).0, (bit_xor_parts a b).1)
      (omega (
        arith,
        differ_cancel (a % 2) (b % 2) (mod-two a) (mod-two b),
        bit_xor_cancel_fuel n (a / 2) (b / 2) (omega arith) (omega arith),
      ))

-- Xoring twice with the same word gives the first word back.
pub bit_xor_cancel : (a b : ℕ) → bit_xor (bit_xor a b) b ≡ a
bit_xor_cancel a b = bit_xor_cancel_fuel (a + b) a b (omega arith) (omega arith)

pub bit_xor-zero : (a : ℕ) → bit_xor a 0 ≡ a
bit_xor-zero a = bit_xor_comm a 0 ∙ zero-bit_xor a

pub bit_xor_self : (a : ℕ) → bit_xor a a ≡ 0
bit_xor_self a =
    let e : bit_xor (bit_xor 0 a) a ≡ 0 = bit_xor_cancel 0 a in rw (zero-bit_xor a) at e

pub bit_xor-left_injective : (a a' b : ℕ) → bit_xor a b ≡ bit_xor a' b → a ≡ a'
bit_xor-left_injective a a' b e =
    sym (bit_xor_cancel a b) ∙ (ap (λ x. bit_xor x b) e ∙ bit_xor_cancel a' b)

pub bit_xor-right_injective : (a b b' : ℕ) → bit_xor a b ≡ bit_xor a b' → b ≡ b'
bit_xor-right_injective a b b' e =
    bit_xor-left_injective b b' a (bit_xor_comm b a ∙ (e ∙ bit_xor_comm a b'))

-- The exclusive or of two words of `k` bits has `k` bits.
pub bit_xor-lt : (k a b : ℕ) → a < 2 ^ k → b < 2 ^ k → bit_xor a b < 2 ^ k
bit_xor-lt zero zero zero p q = omega arith
bit_xor-lt zero zero (suc b) p q = absurd (omega arith)
bit_xor-lt zero (suc a) b p q = absurd (omega arith)
bit_xor-lt (suc k) a b p q = omega (
  arith,
  pow-suc 2 k,
  bit_xor_step a b,
  differ-lt (a % 2) (b % 2) (mod-two a) (mod-two b),
  bit_xor-lt k (a / 2) (b / 2) (omega (arith, pow-suc 2 k)) (omega (arith, pow-suc 2 k)),
)

-- A test that every number below `top` passes; run, it settles a statement about all bytes.
unfoldable pub every_lt : (ℕ → Bool) → ℕ → Bool
every_lt test zero = true
every_lt test (suc top) = every_lt test top && test top

pub every_lt-at : (test : ℕ → Bool) (v top : ℕ) → v < top → every_lt test top ≡ true → test v ≡ true
unfolding every_lt
every_lt-at test v (suc top) lt passed = ground (arith, every_lt-at test v top)
every_lt-at test v zero lt passed = absurd (omega arith)
