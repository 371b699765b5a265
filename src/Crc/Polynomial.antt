-- ===== src/Crc/Polynomial.antt =====
-- The table of ord_lidar_driver.cpp against the division by a polynomial that it tabulates.
use cqut_lgv.Common.{
  ℕ, zero, suc, ◌*◌, ◌%◌, ◌<◌, ◌≡◌, refl, ap, ◌∙◌, true, List, [], ◌∷◌, arith, ltb, ◌==◌, ==_iff,
  if◌then◌else◌, get_or, bit_xor, bit_and, All,
}
use cqut_lgv.Common.Bits.{every_lt, every_lt-at, bit_xor-lt}
use cqut_lgv.Crc.{crc_table, crc_step, crc_loop, crc8}

abbrev pub IsByte : ℕ → Type 0
IsByte b = b < 256

-- One bit of the division by x^8 + x^6 + x^3 + x^2 + 1, highest bit first.
unfoldable pub poly_bit : ℕ → ℕ
poly_bit x = if ltb x 128 then x * 2 else bit_xor (x * 2 % 256) 0x4d

unfoldable pub poly_bits : ℕ → ℕ → ℕ
unfolding poly_bit
poly_bits zero x = x
poly_bits (suc n) x = poly_bits n (poly_bit x)

-- The remainder of a message: each byte is added, then shifted out bit by bit.
unfoldable pub poly_crc : ℕ → List ℕ → ℕ
unfolding poly_bits
poly_crc crc [] = crc
poly_crc crc (b ∷ bs) = poly_crc (poly_bits 8 (bit_xor crc b)) bs

table_bits : every_lt (λ x. get_or crc_table (bit_and x 0xff) 0 == poly_bits 8 x) 256 ≡ true
unfolding every_lt poly_bits
table_bits = refl

table_range : every_lt (λ x. ltb (get_or crc_table (bit_and x 0xff) 0) 256) 256 ≡ true
unfolding every_lt
table_range = refl

pub crc_step-poly_bits :
    (crc b : ℕ) → IsByte crc → IsByte b → crc_step crc b ≡ poly_bits 8 (bit_xor crc b)
unfolding crc_step
crc_step-poly_bits crc b p q =
    (==_iff _ _).0 (every_lt-at _ (bit_xor crc b) 256 (bit_xor-lt 8 crc b p q) table_bits)

pub crc_step-IsByte : (crc b : ℕ) → IsByte crc → IsByte b → IsByte (crc_step crc b)
unfolding crc_step
crc_step-IsByte crc b p q =
    ground (arith, every_lt-at _ (bit_xor crc b) 256 (bit_xor-lt 8 crc b p q) table_range)

crc_loop-poly_crc :
    (crc : ℕ) (bs : List ℕ) → IsByte crc → All IsByte bs → crc_loop crc bs ≡ poly_crc crc bs
unfolding crc_loop poly_crc
crc_loop-poly_crc crc [] p h = refl
crc_loop-poly_crc crc (b ∷ bs) p h =
    crc_loop-poly_crc (crc_step crc b) bs (crc_step-IsByte crc b p h.0) h.1
    ∙ ap (λ c. poly_crc c bs) (crc_step-poly_bits crc b p h.0)

-- For every list of bytes the table driven checksum is the remainder of the message on division by
-- x^8 + x^6 + x^3 + x^2 + 1, computed bit by bit.
pub crc8-poly_crc : (bs : List ℕ) → All IsByte bs → crc8 bs ≡ poly_crc 0 bs
unfolding crc8
crc8-poly_crc bs h = crc_loop-poly_crc 0 bs (omega arith) h
