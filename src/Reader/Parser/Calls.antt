-- ===== src/Reader/Parser/Calls.antt =====
-- A call of `uart_data_handle` (oradar_ros/sdk/src/ord_lidar_driver.cpp) does what the parser does.
use cqut_lgv.Common.{
  ℕ, zero, suc, ◌+◌, ◌*◌, ◌≤◌, ◌<◌, ◌≡◌, ◌⊎◌, refl, sym, subst, ◌∙◌, inl, inr, Bool, false, Option,
  some, List, [], ◌++◌, arith, ltb, ltb→lt, ltb→ge, lt→ltb, Bool-cases, length,
}
use cqut_lgv.Floats.{Floats}
use cqut_lgv.Protocol.{LidarFrame}
use cqut_lgv.Reader.{Reader}
use cqut_lgv.Reader.Loop.{Round, return, continue, round, handle_loop, uart_data_handle}
use cqut_lgv.Reader.Resync.{handle_loop_return, uart_data_handle_loop}
use cqut_lgv.Reader.Stream.{handle_loop_continue}
use cqut_lgv.Reader.Stream.Buffered.{with_buf}
use cqut_lgv.Reader.Parser.{headed_long}
use cqut_lgv.Reader.Parser.Laws.{is_headed-append}
use cqut_lgv.Reader.Parser.Search.{IsPrepared, Parsed, Parsed-trans, Parsed-none}
use cqut_lgv.Reader.Parser.Rounds.{Rounds, round-Rounds}

module _ {F D : Type 0} ⦃fl : Floats F D⦄ where
  -- The call ends, and has done what the parser does with some of the bytes. Less than a frame is left,
  -- or no more than half of `total`.
  abbrev pub Handles : ℕ → Reader F D → Option (Bool × Reader F D) → Type 0
  Handles total r m =
      (b : Bool) × (s : Reader F D) × (gs : List LidarFrame) × (m ≡ some (b, s))
      × Parsed gs r s
      × ((length s.bin_buf < 47) ⊎ (2 * length s.bin_buf ≤ total))

  after_round :
      (fuel at total : ℕ) (r : Reader F D) (o : Round F D)
      → round at r ≡ o
      → at + 2 + length r.bin_buf ≤ total
      → ((k : ℕ) (s : Reader F D)
          → IsPrepared s
          → 2 ≤ length s.bin_buf
          → 2 + k + length s.bin_buf ≤ length r.bin_buf
          → Handles total s (handle_loop fuel k s))
      → Rounds at r o
      → Handles total r (handle_loop (suc fuel) at r)
  after_round fuel at total r (return b s) e bound again (gs, parsed, left) = (
    b,
    s,
    gs,
    handle_loop_return at r fuel b s e,
    parsed,
    elim left [ inl short ↦ inl short | inr (stopped, fewer) ↦ inr (omega arith) ],
  )
  after_round fuel at total r (continue k s) e bound again (gs, parsed, fewer, some_bytes) =
      let (b, t, hs, run, later, left) = again k s parsed.prepared some_bytes fewer in
      (
        b,
        t,
        gs ++ hs,
        handle_loop_continue fuel at k r s e ∙ run,
        Parsed-trans gs hs r s t parsed later,
        left,
      )

  handle_loop-Handles :
      (fuel at total : ℕ) (r : Reader F D)
      → IsPrepared r
      → 2 ≤ length r.bin_buf
      → length r.bin_buf ≤ 4700
      → length r.bin_buf < fuel
      → at + 2 + length r.bin_buf ≤ total
      → Handles total r (handle_loop fuel at r)
  handle_loop-Handles zero at total r p some_bytes small enough bound = absurd (omega arith)
  handle_loop-Handles (suc fuel) at total r p some_bytes small enough bound =
      after_round fuel at total r (round at r) refl bound
        (λ k s prepared some_left fewer.
          handle_loop-Handles fuel k total s prepared some_left (omega arith) (omega arith)
            (omega arith))
        (round-Rounds at r p some_bytes small)

  -- More bytes behind the buffer.
  IsPrepared-append :
      (bytes : List ℕ) (r : Reader F D)
      → IsPrepared r
      → IsPrepared (with_buf (r.bin_buf ++ bytes) r)
  IsPrepared-append bytes r (inl unset) = inl unset
  IsPrepared-append bytes r (inr (set, known, headed)) =
      inr (set, known, is_headed-append r.bin_buf bytes (headed_long r.bin_buf headed) ∙ headed)

  uart_data_handle_few :
      (bytes : List ℕ) (r : Reader F D)
      → length (r.bin_buf ++ bytes) < 47
      → uart_data_handle bytes r ≡ some (false, with_buf (r.bin_buf ++ bytes) r)
  unfolding uart_data_handle
  uart_data_handle_few bytes r few = rw (lt→ltb (length (r.bin_buf ++ bytes)) 47 few) refl

  -- A call whose bytes, with the buffered ones, are no more than a hundred frames' ends, whatever the bytes
  -- are, and has done what the parser does with some of them.
  pub uart_data_handle-Handles :
      (bytes : List ℕ) (r : Reader F D)
      → IsPrepared r
      → length (r.bin_buf ++ bytes) ≤ 4700
      → Handles
          (2 + length (r.bin_buf ++ bytes))
          (with_buf (r.bin_buf ++ bytes) r)
          (uart_data_handle bytes r)
  uart_data_handle-Handles bytes r p small =
      let buf = r.bin_buf ++ bytes in
      let p' = IsPrepared-append bytes r p in
      elim (Bool-cases (ltb (length buf) 47)) [
        | inl few ↦
            subst (Handles (2 + length buf) (with_buf buf r))
              (sym (uart_data_handle_few bytes r (ltb→lt (length buf) 47 few)))
              (
                false,
                with_buf buf r,
                [],
                refl,
                Parsed-none (with_buf buf r) p',
                inl (ltb→lt (length buf) 47 few),
              )
        | inr enough ↦
            let long = ltb→ge (length buf) 47 enough in
            subst (Handles (2 + length buf) (with_buf buf r))
              (sym (uart_data_handle_loop bytes buf r refl long small))
              (handle_loop-Handles (suc (length buf)) 0 (2 + length buf) (with_buf buf r) p'
                (omega arith) small (omega arith) (omega arith))
      ]
