-- ===== src/Api/Seed/Apart.antt =====
-- No two sample programs share an id or an identity key.
use mini_agent_go.Prelude.{
  ℕ, zero, suc, ◌+◌, ◌-◌, ◌*◌, ◌≤◌, ◌<◌, ◌≡◌, refl, ◌≢◌, Bool, true, false, not, List, [], ◌∷◌,
  ◌++◌, arith, eqb, All, All-append, Text, codes, all_text, ◌==◌, eq_iff, eq-false,
}
use mathlib.Core.List.{append_cancel_left, append_cancel_right}
use mini_agent_go.Prelude.Iso.{isoformat, isoformat_utc}
use mini_agent_go.Prelude.Iso.Reading.{isoformat-injective, end_of_time}
use mini_agent_go.Infra.Programs.{ProgramRow, program_cell, by_id, by_identity}
use mini_agent_go.Infra.Table.Bulk.{Apart, AreApart, append-AreApart}
use mini_agent_go.Api.Samples.{ChannelDef, Category, drama, channel_defs}
use mini_agent_go.Api.Seed.{
  slot_minutes, slot_count, slot_start, minute, program_row, slots, channel_rows,
  build_sample_programs,
}
use mini_agent_go.Api.Seed.Slots.{slot_start-suc, slot_start_mono, slot_count-times}

abbrev has_no_bar : Text → Bool
has_no_bar = all_text (λ c. not (eqb c b'|'))

-- what stands before the first bar
bar_inj :
    (s t u v : Text)
    → has_no_bar s ≡ true
    → has_no_bar t ≡ true
    → s ++ b'|' ∷ u ≡ t ++ b'|' ∷ v
    → s ≡ t
bar_inj [] [] u v hs ht e = refl
bar_inj [] (d ∷ t) u v hs ht e = ground arith
bar_inj (c ∷ s) [] u v hs ht e = ground arith
bar_inj (c ∷ s) (d ∷ t) u v hs ht e = ground (arith, bar_inj s t u v)

slot_minutes-pos : (c : Category) → 0 < slot_minutes c
unfolding slot_minutes
slot_minutes-pos drama = omega arith
slot_minutes-pos _ = omega arith

slot_start-lt :
    (now : ℕ) (ch : ChannelDef) (i k : ℕ) → slot_start now ch i < slot_start now ch (i + 1 + k)
slot_start-lt now ch i k =
    omega (
      arith,
      slot_start-suc now ch i,
      slot_start_mono now ch (i + 1) k,
      slot_minutes-pos ch.category,
    )

pub slot_start-le :
    (now : ℕ) (ch : ChannelDef) (i : ℕ)
    → i ≤ slot_count ch.category
    → slot_start now ch i ≤ now - 120 * minute + 2880 * minute
slot_start-le now ch i h =
    let whole : i + (slot_count ch.category - i) ≡ slot_count ch.category = omega arith in
    let last : slot_start now ch (slot_count ch.category) ≡ now - 120 * minute + 2880 * minute =
      unfold slot_start in omega (arith, slot_count-times ch.category) in
    let le = slot_start_mono now ch i (slot_count ch.category - i) in
    omega (arith, rw whole at le, last)

module _ (program_ids : ℕ → ℕ → Text)
    (ids_differ : (a i b j : ℕ) → program_ids a i ≡ program_ids b j → (a ≡ b) × (i ≡ j)) (now : ℕ)
    (source_ids : List Text) (early : now + 2880 * minute < end_of_time) where
  abbrev row : ℕ → ChannelDef → ℕ → ProgramRow
  row = program_row program_ids now source_ids

  same_time :
      (ch : ChannelDef) (i j : ℕ)
      → i ≤ slot_count ch.category
      → j ≤ slot_count ch.category
      → ◌≡◌ {A = Text}
          (b'|' ∷ isoformat_utc (slot_start now ch i))
          (b'|' ∷ isoformat_utc (slot_start now ch j))
      → slot_start now ch i ≡ slot_start now ch j
  same_time ch i j hi hj e =
      let plain =
        append_cancel_right (isoformat (slot_start now ch i)) (isoformat (slot_start now ch j))
          (codes "+00:00") (unfold isoformat_utc in append_cancel_left (b'|' ∷ []) _ _ e) in
      isoformat-injective _ _ (omega (arith, slot_start-le now ch i hi))
        (omega (arith, slot_start-le now ch j hj)) plain

  Apart-same :
      (idx : ℕ) (ch : ChannelDef) (i k : ℕ)
      → i + 1 + k ≤ slot_count ch.category
      → Apart program_cell (row idx ch i) (row idx ch (i + 1 + k))
  unfolding program_row
  Apart-same idx ch i k h by_id = eq-false _ _ λ e.
      let clash = ids_differ idx i idx (i + 1 + k) (append_cancel_left (codes "prog_") _ _ e) in
      absurd (omega (arith, clash.1))
  Apart-same idx ch i k h by_identity = eq-false _ _ λ e.
      let same = same_time ch i (i + 1 + k) (omega arith) h (append_cancel_left ch.id _ _ e) in
      absurd (omega (arith, same, slot_start-lt now ch i k))

  Apart-other :
      (a b : ℕ) (ch dh : ChannelDef) (i j : ℕ)
      → a ≢ b
      → has_no_bar ch.id ≡ true
      → has_no_bar dh.id ≡ true
      → (ch.id == dh.id) ≡ false
      → Apart program_cell (row a ch i) (row b dh j)
  unfolding program_row
  Apart-other a b ch dh i j ab hc hd h by_id =
      eq-false _ _ λ e. ab (ids_differ a i b j (append_cancel_left (codes "prog_") _ _ e)).0
  Apart-other a b ch dh i j ab hc hd h by_identity = eq-false _ _ λ e.
      let same : ch.id ≡ dh.id = bar_inj ch.id dh.id _ _ hc hd e in
      ground (arith, eq_iff ch.id dh.id)

  later_slots :
      (idx : ℕ) (ch : ChannelDef) (i k left : ℕ)
      → i + 1 + k + left ≤ slot_count ch.category
      → All
          (Apart program_cell (row idx ch i))
          (slots program_ids now source_ids idx ch (i + 1 + k) left)
  unfolding slots
  later_slots idx ch i k zero h = tt
  later_slots idx ch i k (suc left) h =
      let next : i + 1 + k + 1 ≡ i + 1 + (k + 1) = omega arith in
      (
        Apart-same idx ch i k (omega arith),
        rw next (later_slots idx ch i (k + 1) left (omega arith)),
      )

  slots-AreApart :
      (idx : ℕ) (ch : ChannelDef) (i left : ℕ)
      → i + left ≤ slot_count ch.category
      → AreApart program_cell (slots program_ids now source_ids idx ch i left)
  unfolding slots
  slots-AreApart idx ch i zero h = tt
  slots-AreApart idx ch i (suc left) h =
      let start : i + 1 + 0 ≡ i + 1 = omega arith in
      (
        rw start at (later_slots idx ch i 0 left (omega arith)),
        slots-AreApart idx ch (i + 1) left (omega arith),
      )

  abbrev Differs : ChannelDef → ChannelDef → Type 0
  Differs ch dh = ((ch.id == dh.id) ≡ false) × (has_no_bar dh.id ≡ true)

  abbrev AreNamed : List ChannelDef → Type 0
  AreNamed [] = Unit
  AreNamed (ch ∷ chs) = (has_no_bar ch.id ≡ true) × All (Differs ch) chs × AreNamed chs

  other_slots :
      (a b : ℕ) (ch dh : ChannelDef) (i j left : ℕ)
      → a ≢ b
      → has_no_bar ch.id ≡ true
      → Differs ch dh
      → All (Apart program_cell (row a ch i)) (slots program_ids now source_ids b dh j left)
  unfolding slots
  other_slots a b ch dh i j zero ab hc d = tt
  other_slots a b ch dh i j (suc left) ab hc d =
      (Apart-other a b ch dh i j ab hc d.1 d.0, other_slots a b ch dh i (j + 1) left ab hc d)

  other_channels :
      (a b : ℕ) (ch : ChannelDef) (i : ℕ) (chs : List ChannelDef)
      → a < b
      → has_no_bar ch.id ≡ true
      → All (Differs ch) chs
      → All (Apart program_cell (row a ch i)) (channel_rows program_ids now source_ids b chs)
  unfolding channel_rows
  other_channels a b ch i [] ab hc d = tt
  other_channels a b ch i (dh ∷ chs) ab hc d =
      All-append (Apart program_cell (row a ch i))
        (slots program_ids now source_ids b dh 0 (slot_count dh.category))
        (channel_rows program_ids now source_ids (b + 1) chs)
        (other_slots a b ch dh i 0 (slot_count dh.category) (λ e. absurd (omega arith)) hc d.0)
        (other_channels a (b + 1) ch i chs (omega arith) hc d.1)

  across :
      (a b : ℕ) (ch : ChannelDef) (i left : ℕ) (chs : List ChannelDef)
      → a < b
      → has_no_bar ch.id ≡ true
      → All (Differs ch) chs
      → All
          (λ x. All (Apart program_cell x) (channel_rows program_ids now source_ids b chs))
          (slots program_ids now source_ids a ch i left)
  unfolding slots
  across a b ch i zero chs ab hc d = tt
  across a b ch i (suc left) chs ab hc d =
      (other_channels a b ch i chs ab hc d, across a b ch (i + 1) left chs ab hc d)

  channel_rows-AreApart :
      (idx : ℕ) (chs : List ChannelDef)
      → AreNamed chs
      → AreApart program_cell (channel_rows program_ids now source_ids idx chs)
  unfolding channel_rows
  channel_rows-AreApart idx [] h = tt
  channel_rows-AreApart idx (ch ∷ chs) h =
      append-AreApart program_cell
        (slots program_ids now source_ids idx ch 0 (slot_count ch.category))
        (channel_rows program_ids now source_ids (idx + 1) chs)
        (slots-AreApart idx ch 0 (slot_count ch.category) (omega arith))
        (channel_rows-AreApart (idx + 1) chs h.2)
        (across idx (idx + 1) ch 0 (slot_count ch.category) chs (omega arith) h.0 h.1)

  pub build_sample_programs-AreApart :
      AreApart program_cell (build_sample_programs program_ids now source_ids)
  unfolding build_sample_programs channel_defs ◌==◌
  build_sample_programs-AreApart = channel_rows-AreApart 0 channel_defs (ground arith)
