-- ===== src/Driver/Requests.antt =====
-- What the lidar gets from the commands of oradar_ros/sdk/src/ord_lidar_driver.cpp.
use cqut_lgv.Common.{
  ℕ, ◌%◌, ◌≤◌, ◌≡◌, refl, inl, inr, ◌∙◌, List, [], ◌∷◌, ◌++◌, ltb, ltb→ge, ap₂, Bool-cases, ◌*◌,
  ◌/◌, bit_xor, arith,
}
use cqut_lgv.Common.Bits.{bit_xor_self}
use cqut_lgv.Common.Int.{ℤ, pos, negsuc}
use cqut_lgv.Driver.Commands.{
  xor_loop, xor_check, with_tail, rotation_request, clamp_speed, request_head,
}

xor_loop-append :
    (check : ℕ) (bytes more : List ℕ)
    → xor_loop check (bytes ++ more) ≡ xor_loop (xor_loop check bytes) more
unfolding xor_loop
xor_loop-append check [] more = refl
xor_loop-append check (b ∷ bytes) more = xor_loop-append (bit_xor check b) bytes more

-- The bytes of a request together with its checksum have the checksum 0, whatever the request is: the
-- test with which a receiver accepts it.
pub xor_check-closed : (request : List ℕ) → xor_check (request ++ (xor_check request ∷ [])) ≡ 0
unfolding xor_check xor_loop
xor_check-closed request =
    xor_loop-append 0 request (xor_check request ∷ []) ∙ bit_xor_self (xor_check request)

-- The speed that is set is from 5 to 15, it is the speed that was asked for if that is in the range,
-- and the request carries it in its first data byte with 0 in the second.
pub rotation_request-clamp_speed :
    (speed : ℤ)
    → (5 ≤ clamp_speed speed)
      × (clamp_speed speed ≤ 15)
      × (clamp_speed (pos (clamp_speed speed)) ≡ clamp_speed speed)
      × (rotation_request (clamp_speed speed)
          ≡ with_tail (request_head 0xA1 2 ++ (clamp_speed speed ∷ 0 ∷ [])))
unfolding clamp_speed rotation_request
rotation_request-clamp_speed (negsuc n) = (omega arith, omega arith, refl, refl)
rotation_request-clamp_speed (pos n) = elim (Bool-cases (ltb n 5)) [
  | inl slow ↦ rw slow (omega arith, omega arith, refl, refl)
  | inr enough ↦ elim (Bool-cases (ltb 15 n)) [
    | inl fast ↦ rw (enough, fast) (omega arith, omega arith, refl, refl)
    | inr fitting ↦
        let low : n % 256 ≡ n = omega (arith, ltb→ge _ _ fitting) in
        let high : n / 256 * 256 % 256 ≡ 0 = omega arith in
        rw (enough, fitting)
          (
            ltb→ge _ _ enough,
            ltb→ge _ _ fitting,
            rw (enough, fitting) refl,
            ap₂ (λ a b. with_tail (request_head 0xA1 2 ++ (a ∷ b ∷ []))) low high,
          )
  ]
]
