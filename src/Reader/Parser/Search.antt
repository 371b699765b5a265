-- ===== src/Reader/Parser/Search.antt =====
-- The search for a header in `uart_data_handle` (oradar_ros/sdk/src/ord_lidar_driver.cpp), and the parser.
use cqut_lgv.Common.{
  ℕ, suc, ◌+◌, ◌≤◌, ◌≡◌, ◌⊎◌, refl, sym, ap, subst, ◌∙◌, inl, inr, Bool, true, false, ◌&&◌, List,
  [], ◌∷◌, ◌++◌, arith, ◌==◌, Bool-cases, length, drop, length-drop,
}
use cqut_lgv.Floats.{Floats}
use cqut_lgv.Protocol.{LidarFrame, head_flag_none, head_flag_ok, version_ms200}
use cqut_lgv.Reader.{Reader, reset_flags}
use cqut_lgv.Reader.Loop.{find_header, found_header, search_from, sync_header}
use cqut_lgv.Reader.Stream.{run_frames}
use cqut_lgv.Reader.Stream.Split.{run_frames-append}
use cqut_lgv.Reader.Parser.{is_headed, Yields, here, step, next_junk}
use cqut_lgv.Reader.Parser.Laws.{Yields-trans}

-- The search for a header passes over bytes that the parser passes over too, and ends at a header or
-- in front of the last two bytes.
pub record Found (buf : List ℕ) (at : ℕ) (w : ℕ × Bool) : Type 0 where
  pub skipped : ℕ
  pub position : w.0 ≡ at + skipped
  pub inside : skipped ≤ length buf
  pub yields : Yields buf [] (drop skipped buf)
  pub ends :
      ((w.1 ≡ true) × (is_headed (drop skipped buf) ≡ true))
      ⊎ ((w.1 ≡ false) × (length (drop skipped buf) ≤ 2))

pub find_header-Found : (buf : List ℕ) (at : ℕ) → Found buf at (find_header buf at)
unfolding find_header
find_header-Found [] at = record {
  skipped = 0;
  position = omega arith;
  inside = omega arith;
  yields = here;
  ends = inr (refl, omega arith);
}
find_header-Found (a ∷ []) at = record {
  skipped = 0;
  position = omega arith;
  inside = omega arith;
  yields = here;
  ends = inr (refl, omega arith);
}
find_header-Found (a ∷ b ∷ []) at = record {
  skipped = 0;
  position = omega arith;
  inside = omega arith;
  yields = here;
  ends = inr (refl, omega arith);
}
find_header-Found (a ∷ b ∷ c ∷ rest) at = elim (Bool-cases ((a == 0x54) && (b == 0x2C))) [
  | inl headed ↦ rw headed (record {
    skipped = 0;
    position = omega arith;
    inside = omega arith;
    yields = here;
    ends = inl (refl, headed);
  })
  | inr other ↦
      let f = find_header-Found (b ∷ c ∷ rest) (suc at) in
      rw other (record {
        skipped = suc f.skipped;
        position = omega (arith, f.position);
        inside = omega (arith, f.inside);
        yields = step [] 1 (next_junk (a ∷ b ∷ c ∷ rest) other (omega arith)) f.yields refl;
        ends = f.ends;
      })
]

module _ {F D : Type 0} where
  -- The reader `r` with the flags and the buffer of `s`.
  abbrev pub seen : Reader F D → Reader F D → Reader F D
  seen s r = record r {
    parsed_data = record r.parsed_data {
      head_flag = s.parsed_data.head_flag;
      version = s.parsed_data.version;
    };
    bin_buf = s.bin_buf;
  }

  -- The reader searches for a header, or has one in front.
  abbrev pub IsPrepared : Reader F D → Type 0
  IsPrepared r =
      (r.parsed_data.head_flag ≡ head_flag_none)
      ⊎ ((r.parsed_data.head_flag ≡ head_flag_ok)
          × (r.parsed_data.version ≡ version_ms200)
          × (is_headed r.bin_buf ≡ true))

module _ {F D : Type 0} ⦃fl : Floats F D⦄ where
  -- From `r` to `s` the reader has stored the frames that the parser finds in the bytes that are gone,
  -- and nothing else has changed.
  pub record Parsed (gs : List LidarFrame) (r s : Reader F D) : Type 0 where
    pub yields : Yields r.bin_buf gs s.bin_buf
    pub same : s ≡ seen s (run_frames gs r)
    pub prepared : IsPrepared s

  pub seen-run_frames :
      (hs : List LidarFrame) (s t x : Reader F D)
      → seen t (run_frames hs (seen s x)) ≡ seen t (run_frames hs x)
  unfolding reset_flags
  seen-run_frames [] s t x = refl
  seen-run_frames (h ∷ hs) s t x = refl

  pub Parsed-trans :
      (gs hs : List LidarFrame) (r s t : Reader F D)
      → Parsed gs r s
      → Parsed hs s t
      → Parsed (gs ++ hs) r t
  Parsed-trans gs hs r s t first later = record {
    yields = Yields-trans first.yields later.yields;
    same =
        later.same
        ∙ (ap (λ x. seen t (run_frames hs x)) first.same
            ∙ (seen-run_frames hs s t (run_frames gs r)
                ∙ ap (seen t) (sym (run_frames-append gs hs r))));
    prepared = later.prepared;
  }

  -- What the search of a round leaves.
  pub record Synced (r : Reader F D) (w : ℕ × Reader F D) : Type 0 where
    pub parsed : Parsed [] r w.1
    pub moved : w.0 + length w.1.bin_buf ≤ length r.bin_buf
    pub ends :
        (length w.1.bin_buf ≤ 2)
        ⊎ ((w.1.parsed_data.head_flag ≡ head_flag_ok)
            × (w.1.parsed_data.version ≡ version_ms200)
            × (is_headed w.1.bin_buf ≡ true))

  found_header-Synced :
      (r : Reader F D) (w : ℕ × Bool)
      → r.parsed_data.head_flag ≡ head_flag_none
      → Found r.bin_buf 0 w
      → Synced r (found_header w r)
  unfolding found_header
  found_header-Synced r (k, true) unset f =
      let buf = r.bin_buf in
      let k_eq : f.skipped ≡ k = omega (arith, f.position) in
      let headed : is_headed (drop k buf) ≡ true = elim f.ends [
        | inl (yes_found, h) ↦ subst (λ j. is_headed (drop j buf) ≡ true) k_eq h
        | inr (missing, few) ↦ absurd (ground arith)
      ] in
      record {
        parsed = record {
          yields = subst (λ j. Yields buf [] (drop j buf)) k_eq f.yields;
          same = refl;
          prepared = inr (refl, refl, headed);
        };
        moved = omega (arith, length-drop k buf, f.inside);
        ends = inr (refl, refl, headed);
      }
  found_header-Synced r (k, false) unset f =
      let buf = r.bin_buf in
      let k_eq : f.skipped ≡ k = omega (arith, f.position) in
      let few : length (drop k buf) ≤ 2 = elim f.ends [
        | inl (found, h) ↦ absurd (ground arith)
        | inr (missing, h) ↦ subst (λ j. length (drop j buf) ≤ 2) k_eq h
      ] in
      record {
        parsed = record {
          yields = subst (λ j. Yields buf [] (drop j buf)) k_eq f.yields;
          same = refl;
          prepared = inl unset;
        };
        moved = omega (arith, length-drop k buf, f.inside);
        ends = inl few;
      }

  pub Parsed-none : (r : Reader F D) → IsPrepared r → Parsed [] r r
  Parsed-none r p = record { yields = here; same = refl; prepared = p }

  pub sync_header-Synced : (r : Reader F D) → IsPrepared r → Synced r (sync_header r)
  unfolding sync_header search_from
  sync_header-Synced r (inl unset) =
      subst (λ flag. Synced r (search_from flag r)) (sym unset)
        (found_header-Synced r (find_header r.bin_buf 0) unset (find_header-Found r.bin_buf 0))
  sync_header-Synced r (inr (set, known, headed)) =
      subst (λ flag. Synced r (search_from flag r)) (sym set)
        (record {
          parsed = Parsed-none r (inr (set, known, headed));
          moved = omega arith;
          ends = inr (set, known, headed);
        })
