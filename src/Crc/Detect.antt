-- ===== src/Crc/Detect.antt =====
-- What the checksum of ord_lidar_driver.cpp detects.
use cqut_lgv.Common.{
  ℕ, suc, ◌<◌, ◌≡◌, ◌≢◌, refl, sym, ap, ◌∙◌, true, List, [], ◌∷◌, ◌++◌, arith, ◌==◌, ==_iff, get_or,
  bit_xor, bit_and, All,
}
use cqut_lgv.Common.Bits.{
  every_lt, every_lt-at, bit_xor-lt, bit_xor-left_injective, bit_xor-right_injective,
}
use cqut_lgv.Crc.{crc_table, crc_step, crc_loop, crc8}
use cqut_lgv.Crc.Polynomial.{IsByte, crc_step-IsByte}

-- The position of a value in the table: its rows are a permutation of the bytes.
find_in : ℕ → List ℕ → ℕ
find_in v [] = 0
find_in v (x ∷ xs) = let rest = suc (find_in v xs) in elim (x == v) [ true ↦ 0 | _ ↦ rest ]

table_inverse :
    every_lt (λ x. find_in (get_or crc_table (bit_and x 0xff) 0) crc_table == x) 256 ≡ true
unfolding every_lt find_in
table_inverse = refl

table_injective :
    (x y : ℕ)
    → x < 256
    → y < 256
    → get_or crc_table (bit_and x 0xff) 0 ≡ get_or crc_table (bit_and y 0xff) 0
    → x ≡ y
table_injective x y p q e =
    sym ((==_iff _ x).0 (every_lt-at _ x 256 p table_inverse))
    ∙ (ap (λ v. find_in v crc_table) e ∙ (==_iff _ y).0 (every_lt-at _ y 256 q table_inverse))

module _ (crc crc' b b' : ℕ) (p : IsByte crc) (p' : IsByte crc') (q : IsByte b)
    (q' : IsByte b') where
  crc_step_injective : crc_step crc b ≡ crc_step crc' b' → bit_xor crc b ≡ bit_xor crc' b'
  unfolding crc_step
  crc_step_injective = table_injective _ _ (bit_xor-lt 8 crc b p q) (bit_xor-lt 8 crc' b' p' q')

-- The rest of a message keeps two different checksums different.
crc_loop_injective :
    (bs : List ℕ) (crc crc' : ℕ)
    → All IsByte bs
    → IsByte crc
    → IsByte crc'
    → crc_loop crc bs ≡ crc_loop crc' bs
    → crc ≡ crc'
unfolding crc_loop
crc_loop_injective [] crc crc' h p p' e = e
crc_loop_injective (b ∷ bs) crc crc' h p p' e = bit_xor-left_injective crc crc' b (
    crc_step_injective crc crc' b b p p' h.0 h.0 (
      crc_loop_injective bs (crc_step crc b) (crc_step crc' b) h.1 (crc_step-IsByte crc b p h.0)
        (crc_step-IsByte crc' b p' h.0) e))

crc_loop_single :
    (before after : List ℕ) (b b' crc : ℕ)
    → All IsByte before
    → All IsByte after
    → IsByte crc
    → IsByte b
    → IsByte b'
    → crc_loop crc (before ++ (b ∷ after)) ≡ crc_loop crc (before ++ (b' ∷ after))
    → b ≡ b'
unfolding crc_loop
crc_loop_single [] after b b' crc hb ha p q q' e = bit_xor-right_injective crc b b' (
    crc_step_injective crc crc b b' p p q q' (
      crc_loop_injective after (crc_step crc b) (crc_step crc b') ha (crc_step-IsByte crc b p q)
        (crc_step-IsByte crc b' p q') e))
crc_loop_single (x ∷ before) after b b' crc hb ha p q q' e =
    crc_loop_single before after b b' (crc_step crc x) hb.1 ha (crc_step-IsByte crc x p hb.0) q q' e

-- Changing one byte of a message, wherever it stands, to another byte changes its checksum: a
-- single damaged byte is always detected.
pub crc8_single_byte :
    (before after : List ℕ) (b b' : ℕ)
    → All IsByte before
    → All IsByte after
    → IsByte b
    → IsByte b'
    → b ≢ b'
    → crc8 (before ++ (b ∷ after)) ≢ crc8 (before ++ (b' ∷ after))
unfolding crc8
crc8_single_byte before after b b' hb ha q q' ne e =
    ne (crc_loop_single before after b b' 0 hb ha (omega arith) q q' e)
