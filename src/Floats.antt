-- ===== src/Floats.antt =====
-- The floating point operations that the sources use, as an interface. `F` stands for `float` and
-- `D` for `double`; nothing is assumed of their rounding. A literal such as 0.001 is given by its
-- digits and the number of its decimals.
pub mod Fixed
use cqut_lgv.Common.{ℕ, Bool}
use cqut_lgv.Common.Int.{ℤ}

pub record Floats (F D : Type 0) : Type 0 where
  -- Conversions between the two widths, and from integers.
  pub widen : F → D
  pub narrow : D → F
  pub float_of : ℤ → F
  pub double_of : ℤ → D
  pub decimal : ℕ → ℕ → D
  -- The conversions to `uint16_t` and `unsigned int`.
  pub float_to_u16 : F → ℕ
  pub float_to_u32 : F → ℕ
  -- float
  pub fadd : F → F → F
  pub fsub : F → F → F
  pub fmul : F → F → F
  pub fdiv : F → F → F
  pub flt : F → F → Bool
  pub fle : F → F → Bool
  -- double
  pub dadd : D → D → D
  pub dsub : D → D → D
  pub dmul : D → D → D
  pub ddiv : D → D → D
  pub dlt : D → D → Bool
  -- `exp` and `sqrt` of <math.h>
  pub exp : D → D
  pub sqrt : D → D
