-- ===== src/Api/Seed/Slots.antt =====
-- The sample programs of each channel fill two days without a gap or an overlap.
use mini_agent_go.Prelude.{
  ℕ, zero, suc, ◌+◌, ◌-◌, ◌*◌, ◌≤◌, ◌≡◌, refl, ◌∙◌, inl, inr, Bool, false, ◌&&◌, List, [], ◌∷◌,
  arith, ltb, leb, if◌then◌else◌, Bool-cases, All, Text, count, All-implied, count-append, ◌==◌,
  eq_iff, eq_refl,
}
use mini_agent_go.Infra.Programs.{ProgramRow}
use mini_agent_go.Api.Samples.{ChannelDef, Category, drama, channel_defs}
use mini_agent_go.Api.Seed.{
  slot_minutes, slot_count, slot_start, minute, program_row, slots, channel_rows,
  build_sample_programs,
}

-- A program of a channel is on at a time.
abbrev pub is_on : Text → ℕ → ProgramRow → Bool
is_on channel_id t r = (r.channel_id == channel_id) && (leb r.start_at t && ltb t r.end_at)

pub slot_start-suc :
    (now : ℕ) (ch : ChannelDef) (i : ℕ)
    → slot_start now ch (i + 1) ≡ slot_start now ch i + slot_minutes ch.category * minute
unfolding slot_start
slot_start-suc now ch i = grind arith

pub slot_start_mono :
    (now : ℕ) (ch : ChannelDef) (i left : ℕ) → slot_start now ch i ≤ slot_start now ch (i + left)
unfolding slot_start
slot_start_mono now ch i left = grind arith

pub slot_count-times : (c : Category) → slot_minutes c * minute * slot_count c ≡ 2880 * minute
unfolding slot_minutes slot_count
slot_count-times drama = refl
slot_count-times _ = refl

-- how many channels of a list have an id
abbrev channels_of : Text → List ChannelDef → ℕ
channels_of c chs = count (λ ch. ch.id == c) chs

channels_once : All (λ ch. channels_of ch.id channel_defs ≡ 1) channel_defs
unfolding channel_defs ◌==◌
channels_once = omega arith

module _ (program_ids : ℕ → ℕ → Text) (now : ℕ) (source_ids : List Text) where
  is_on-program_row :
      (idx : ℕ) (ch : ChannelDef) (c : Text) (t i : ℕ)
      → is_on c t (program_row program_ids now source_ids idx ch i)
        ≡ ((ch.id == c) && (leb (slot_start now ch i) t && ltb t (slot_start now ch (i + 1))))
  unfolding program_row
  is_on-program_row idx ch c t i = rw (slot_start-suc now ch i) refl

  count-slots :
      (idx : ℕ) (ch : ChannelDef) (t i left : ℕ)
      → count (is_on ch.id t) (slots program_ids now source_ids idx ch i left)
        ≡ (if leb (slot_start now ch i) t && ltb t (slot_start now ch (i + left)) then 1 else 0)
  unfolding slots
  count-slots idx ch t i zero =
      let none_left : i + 0 ≡ i = omega arith in rw none_left (ground arith)
  count-slots idx ch t i (suc left) =
      let same : i + suc left ≡ i + 1 + left = omega arith in
      rw (same, is_on-program_row idx ch ch.id t i, eq_refl ch.id)
        (ground (
          arith,
          count-slots idx ch t (i + 1) left,
          slot_start_mono now ch i 1,
          slot_start_mono now ch (i + 1) left,
        ))

  count-slots_other :
      (idx : ℕ) (ch : ChannelDef) (c : Text) (t i left : ℕ)
      → (ch.id == c) ≡ false
      → count (is_on c t) (slots program_ids now source_ids idx ch i left) ≡ 0
  unfolding slots
  count-slots_other idx ch c t i zero h = refl
  count-slots_other idx ch c t i (suc left) h =
      rw (is_on-program_row idx ch c t i, h)
        (omega (arith, count-slots_other idx ch c t (i + 1) left h))

  -- the two days from two hours before the seeding
  abbrev in_two_days : ℕ → Bool
  in_two_days t = leb (now - 120 * minute) t && ltb t (now - 120 * minute + 2880 * minute)

  count-channel :
      (idx : ℕ) (ch : ChannelDef) (t : ℕ)
      → count (is_on ch.id t) (slots program_ids now source_ids idx ch 0 (slot_count ch.category))
        ≡ (if in_two_days t then 1 else 0)
  count-channel idx ch t =
      let from : slot_start now ch 0 ≡ now - 120 * minute = unfold slot_start in omega arith in
      let to : slot_start now ch (0 + slot_count ch.category) ≡ now - 120 * minute + 2880 * minute =
        unfold slot_start in omega (arith, slot_count-times ch.category) in
      count-slots idx ch t 0 (slot_count ch.category) ∙ rw (from, to) refl

  count-channel_rows :
      (idx : ℕ) (chs : List ChannelDef) (c : Text) (t : ℕ)
      → count (is_on c t) (channel_rows program_ids now source_ids idx chs)
        ≡ (if in_two_days t then channels_of c chs else 0)
  unfolding channel_rows
  count-channel_rows idx [] c t = ground arith
  count-channel_rows idx (ch ∷ chs) c t =
      let here = slots program_ids now source_ids idx ch 0 (slot_count ch.category) in
      let apart =
        count-append (is_on c t) here (channel_rows program_ids now source_ids (idx + 1) chs) in
      let rest = count-channel_rows (idx + 1) chs c t in
      elim (Bool-cases (ch.id == c)) [
        | inl e ↦
            let same : ch.id ≡ c = (eq_iff ch.id c).0 e in
            let mine : count (is_on c t) here ≡ (if in_two_days t then 1 else 0) =
              rw (← same) (count-channel idx ch t) in
            apart ∙ rw (mine, rest, e) (ground arith)
        | inr e ↦
            apart
            ∙ rw (count-slots_other idx ch c t 0 (slot_count ch.category) e, rest, e) (ground arith)
      ]

  -- At each time of the two days from two hours before the seeding, exactly one sample program is on
  -- each of the twelve channels, and at other times none is.
  pub build_sample_programs-cover :
      (t : ℕ)
      → All
          (λ ch. count (is_on ch.id t) (build_sample_programs program_ids now source_ids) ≡ (
            if leb (now - 120 * minute) t && ltb t (now - 120 * minute + 2880 * minute)
            then 1
            else 0))
          channel_defs
  unfolding build_sample_programs
  build_sample_programs-cover t =
      All-implied
        (λ ch (once : channels_of ch.id channel_defs ≡ 1).
          let all = count-channel_rows 0 channel_defs ch.id t in rw once at all)
        channel_defs (channels_once)
