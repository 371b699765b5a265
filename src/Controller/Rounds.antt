-- ===== src/Controller/Rounds.antt =====
-- What a read does in the main loop of lgv_controller/src/lgv_controller_node.cpp.
use cqut_lgv.Common.{
  ℕ, ◌+◌, ◌≤◌, ◌<◌, ◌≡◌, inl, inr, refl, sym, ap, ◌∙◌, Bool-cases, Option, some, List, ◌∷◌, ◌++◌,
  length, drop, copy_into, get_or, arith, ltb, ltb→lt, ltb→ge, le→ltb, append_assoc, length-append,
  length-copy_into, get_or-append_lt, get_or-append_add,
}
use cqut_lgv.Common.Int.{ℤ}
use cqut_lgv.Floats.{Floats}
use cqut_lgv.Controller.{Pose, Platform, search, packet_at, find_packet, publish_pose, read_input}
use cqut_lgv.Controller.Memory.{Run, ok, stop, out_of_bounds, ◌>>=◌, bits32_at}
use cqut_lgv.Controller.Packets.{
  Packet, FitsWords, packet_bytes, pose_of, packet_at_fields, packet_at-packet_bytes, bits_lem,
}
use cqut_lgv.Controller.Reading.{
  IsHeader, search_reaches, search_found_step, search_last_step, packet_at_outside, int16_at_inside,
  bits32_at-copy_into,
}

-- The first header lies before the end of the array, and the loop comes to it.
search_first :
    (n k : ℕ) (buf : List ℕ)
    → k < n
    → k + 1 < length buf
    → IsHeader buf k
    → ((j : ℕ) → j < k → ¬ IsHeader buf j)
    → search n 0 buf ≡ ok (some k)
search_first n k buf lt room here before =
    let (m, e) = search_reaches n 0 k buf (omega arith) (omega arith) (omega arith) before in
    e ∙ search_found_step m k buf (omega arith) here

module _ {W T Q F D : Type 0} ⦃fl : Floats F D⦄ (p : Platform W T Q F D) where
  find_packet_at :
      (n k : ℕ) (buf : List ℕ) (m : Run (Pose F))
      → search n 0 buf ≡ ok (some k)
      → packet_at p buf k ≡ m
      → find_packet p n buf ≡ (m >>= λ pose. ok (some pose))
  unfolding find_packet
  find_packet_at n k buf m e e' = rw (e, e') refl

  module _ (current_time : T) (n : ℕ) (r_buffer bytes : List ℕ) (world world' : W)
      (got : p.read n world ≡ some (bytes, world')) (fits : length bytes ≤ 32) where
    -- The array after the read.
    abbrev after_read : List ℕ
    after_read = copy_into r_buffer 0 bytes

    read_input_found :
        (found : Run (Option (Pose F)))
        → find_packet p (length bytes) after_read ≡ found
        → read_input p current_time n r_buffer world
          ≡ (found >>= λ pose. ok (after_read, publish_pose p current_time pose world'))
    unfolding read_input
    read_input_found found e = rw (got, le→ltb 32 (length bytes) fits, e) refl

    -- A read of at most 32 bytes that brings a whole packet, with velocities that fit an `int16_t`,
    -- behind bytes where no header begins, publishes this packet and no other.
    pub read_input-packet_bytes :
        (junk : List ℕ) (q : Packet) (rest : List ℕ)
        → bytes ≡ junk ++ packet_bytes q rest
        → ((j : ℕ) → j < length junk → ¬ IsHeader bytes j)
        → FitsWords q
        → read_input p current_time n r_buffer world
          ≡ ok (after_read, publish_pose p current_time (some (pose_of p q)) world')
    unfolding packet_bytes
    read_input-packet_bytes junk q rest e before words =
        let k = length junk in
        let ys = packet_bytes q rest in
        let tail = drop (0 + length bytes) r_buffer in
        let layout : after_read ≡ junk ++ packet_bytes q (rest ++ tail) =
          ap (λ bs. bs ++ tail) e ∙ append_assoc junk ys tail in
        let len = length-append junk ys in
        let here : IsHeader after_read k = (
          ap (λ bs. get_or bs k 0) layout
              ∙ get_or-append_add junk (packet_bytes q (rest ++ tail)) 0 k 0 (omega arith),
          ap (λ bs. get_or bs (k + 1) 0) layout
              ∙ get_or-append_add junk (packet_bytes q (rest ++ tail)) 1 (k + 1) 0 refl,
        ) in
        read_input_found (ok (some (pose_of p q))) (
          find_packet_at (length bytes) k after_read (ok (pose_of p q))
            (search_first (length bytes) k after_read (omega (arith, ap length e, len))
              (omega (arith, length-append bytes tail, ap length e, len)) here
              (λ j less h. before j less (
                sym (get_or-append_lt bytes tail j 0 (omega (arith, ap length e, len))) ∙ h.0,
                sym (get_or-append_lt bytes tail (j + 1) 0 (omega (arith, ap length e, len))) ∙ h.1,
              )))
            (ap (λ bs. packet_at p bs k) layout
              ∙ packet_at-packet_bytes p junk q (rest ++ tail) words))

    -- If, after a read of at most 32 bytes, the first header of the array stands behind its first
    -- thirteen places, among the bytes that were read, or no header stands in it and its last byte
    -- was read and is 0xFF, the loop reads beyond the end of the array.
    pub read_input_outside :
        (k : ℕ)
        → length r_buffer ≡ 32
        → 12 < k
        → k < length bytes
        → get_or after_read k 0 ≡ 0xFF
        → (k + 1 < 32 → get_or after_read (k + 1) 0 ≡ 0xFF)
        → ((j : ℕ) → j < k → ¬ IsHeader after_read j)
        → read_input p current_time n r_buffer world ≡ stop out_of_bounds
    unfolding find_packet
    read_input_outside k size late inside first second before =
        let len : length after_read ≡ 32 = length-copy_into r_buffer 0 bytes (omega arith) ∙ size in
        read_input_found (stop out_of_bounds) (elim (Bool-cases (ltb (k + 1) 32)) [
          | inl room ↦
              let more : k + 1 < 32 = ltb→lt _ _ room in
              find_packet_at (length bytes) k after_read (stop out_of_bounds)
                (search_first (length bytes) k after_read inside (omega arith) (first, second more)
                  before)
                (packet_at_outside p after_read k (omega arith))
          | inr end ↦
              let none_left : 32 ≤ k + 1 = ltb→ge _ _ end in
              let (m, e) =
                search_reaches (length bytes) 0 k after_read (omega arith) (omega arith)
                  (omega arith) before in
              rw (e ∙ search_last_step m k after_read (omega arith) first) refl
        ])

    -- If a packet stands at the front of the array, a read that brings only a header and at most
    -- six bytes behind it publishes the position of that old packet once more, with some
    -- velocities.
    pub read_input_stale :
        (more : List ℕ) (old : Packet) (rest : List ℕ)
        → bytes ≡ 0xFF ∷ 0xFF ∷ more
        → length more ≤ 6
        → r_buffer ≡ packet_bytes old rest
        → (vx vy vw : ℤ) × (read_input p current_time n r_buffer world
            ≡ ok (
              after_read,
              publish_pose p current_time
                  (some (pose_of p (record old { vx = vx; vy = vy; vw = vw })))
                  world',
            ))
    unfolding packet_bytes
    read_input_stale more old rest e short before =
        let len : length after_read ≡ length r_buffer =
          length-copy_into r_buffer 0 bytes (omega (arith, ap length e, ap length before)) in
        let size = ap length before in
        let (vx, evx) = int16_at_inside after_read 2 (omega arith) in
        let (vy, evy) = int16_at_inside after_read 4 (omega arith) in
        let (vw, evw) = int16_at_inside after_read 6 (omega arith) in
        let now = record old { vx = vx; vy = vy; vw = vw } in
        let kept : (i b : ℕ)
            → 8 ≤ i
            → bits32_at (packet_bytes old rest) i ≡ ok b
            → bits32_at after_read i ≡ ok b =
          λ i b le eb.
            bits32_at-copy_into r_buffer bytes i (omega (arith, ap length e))
            ∙ (ap (λ bs. bits32_at bs i) before ∙ eb) in
        (
          vx,
          vy,
          vw,
          read_input_found (ok (some (pose_of p now))) (
              find_packet_at (length bytes) 0 after_read (ok (pose_of p now))
                (search_first (length bytes) 0 after_read (omega (arith, ap length e)) (omega arith)
                  (
                    ap (λ bs. get_or bs 0 0) (ap (λ bs. bs ++ drop (0 + length bytes) r_buffer) e),
                    ap (λ bs. get_or bs 1 0) (ap (λ bs. bs ++ drop (0 + length bytes) r_buffer) e),
                  )
                  (λ j h. absurd (omega arith)))
                (packet_at_fields p after_read 0 now evx evy evw
                  (kept 8 old.x (omega arith) (ap ok (bits_lem old.x)))
                  (kept 12 old.y (omega arith) (ap ok (bits_lem old.y)))
                  (kept 16 old.w (omega arith) (ap ok (bits_lem old.w))))),
        )
