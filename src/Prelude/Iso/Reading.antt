-- ===== src/Prelude/Iso/Reading.antt =====
-- A time can be read off its ISO text, so that two times do not have the same text.
use mini_agent_go.Prelude.{
  ℕ, zero, suc, ◌+◌, ◌-◌, ◌*◌, ◌/◌, ◌%◌, ◌≤◌, ◌<◌, ◌≡◌, refl, sym, ap, ◌∙◌, inl, inr, true, false,
  [], ◌∷◌, arith, ltb, leb, eqb, if◌then◌else◌, Bool-cases, Text,
}
use mini_agent_go.Prelude.Iso.{
  Date, date_of, date_in, year_of_era, start_of_year, month_index, start_of_month, day_length,
  written, isoformat, yoe_le, doy_le, month_le, day_le,
}

-- the first of March of the year 9600; there are dates up to the year 9999
abbrev pub end_of_time : ℕ
end_of_time = 240_784_704_000_000_000

days_in : ℕ → ℕ → ℕ → ℕ
days_in y mp d = y / 400 * 146097 + start_of_year (y % 400) + start_of_month mp + (d - 1) - 719468

-- the day of a date
days_of : Date → ℕ
unfolding days_in
days_of d =
    days_in (if leb d.month 2 then d.year - 1 else d.year)
      (if leb d.month 2 then d.month + 9 else d.month - 3) d.day

days_in-eq :
    (era yoe doy mp y : ℕ)
    → yoe < 400
    → start_of_month mp ≤ doy
    → y ≡ yoe + era * 400
    → days_in y mp (doy - start_of_month mp + 1) ≡ era * 146097 + start_of_year yoe + doy - 719468
unfolding days_in
days_in-eq era yoe doy mp y h k e =
    let q : y / 400 ≡ era = omega arith in
    let r : y % 400 ≡ yoe = omega arith in rw (q, r) (omega arith)

days_of-date_in :
    (era yoe doy mp : ℕ)
    → yoe < 400
    → mp < 12
    → start_of_month mp ≤ doy
    → days_of (date_in era yoe doy mp) ≡ era * 146097 + start_of_year yoe + doy - 719468
unfolding days_of date_in
days_of-date_in era yoe doy mp h m k = elim (Bool-cases (ltb mp 10)) [
  | inl e ↦
      let f : leb (mp + 3) 2 ≡ false = ground arith in
      let g : mp + 3 - 3 ≡ mp = omega arith in
      rw (e, f, g) (days_in-eq era yoe doy mp _ h k (omega arith))
  | inr e ↦
      let f : leb (mp - 9) 2 ≡ true = ground arith in
      let g : mp - 9 + 9 ≡ mp = ground arith in
      rw (e, f, g) (days_in-eq era yoe doy mp _ h k (omega arith))
]

days_of-date_of : (days : ℕ) → days_of (date_of days) ≡ days
unfolding date_of
days_of-date_of days =
    let z = days + 719468 in
    let doe = z % 146097 in
    let below : doe < 146097 = omega arith in
    let doy = doe - start_of_year (year_of_era doe) in
    let few = doy_le doe below in
    days_of-date_in (z / 146097) (year_of_era doe) doy (month_index doy) (yoe_le doe below).1
      (month_le doy few).1 (month_le doy few).0
    ∙ omega (arith, (yoe_le doe below).0)

date_bounds :
    (days : ℕ)
    → days < 2786860
    → ((date_of days).year < 10000) × ((date_of days).month < 100) × ((date_of days).day < 100)
unfolding date_of date_in
date_bounds days h =
    let z = days + 719468 in
    let doe = z % 146097 in
    let below : doe < 146097 = omega arith in
    let doy = doe - start_of_year (year_of_era doe) in
    let few = doy_le doe below in ground (arith, yoe_le doe below, month_le doy few, day_le doy few)

-- the `i`-th character of a text, or the digit 0
char_at : Text → ℕ → ℕ
char_at [] i = 48
char_at (c ∷ s) zero = c
char_at (c ∷ s) (suc i) = char_at s i

two_digits : Text → ℕ → ℕ
unfolding char_at
two_digits s i = (char_at s i - 48) * 10 + (char_at s (suc i) - 48)

-- the time that a text tells
from_iso : Text → ℕ
unfolding two_digits days_of
from_iso s =
    days_of (record {
      year = two_digits s 0 * 100 + two_digits s 2;
      month = two_digits s 5;
      day = two_digits s 8;
    })
      * day_length
    + (two_digits s 11 * 3600 + two_digits s 14 * 60 + two_digits s 17) * 1_000_000
    + (two_digits s 20 * 10000 + two_digits s 22 * 100 + two_digits s 24)

two_digits-eq : (n : ℕ) → n < 100 → (n / 10 % 10 + 48 - 48) * 10 + (n % 10 + 48 - 48) ≡ n
two_digits-eq n h = omega arith

four_digits-eq :
    (n : ℕ)
    → n < 10000
    → ((n / 10 / 10 / 10 % 10 + 48 - 48) * 10 + (n / 10 / 10 % 10 + 48 - 48)) * 100
        + ((n / 10 % 10 + 48 - 48) * 10 + (n % 10 + 48 - 48))
      ≡ n
four_digits-eq n h = omega arith

six_digits-eq :
    (n : ℕ)
    → n < 1_000_000
    → ((n / 10 / 10 / 10 / 10 / 10 % 10 + 48 - 48) * 10 + (n / 10 / 10 / 10 / 10 % 10 + 48 - 48))
          * 10000
        + ((n / 10 / 10 / 10 % 10 + 48 - 48) * 10 + (n / 10 / 10 % 10 + 48 - 48)) * 100
        + ((n / 10 % 10 + 48 - 48) * 10 + (n % 10 + 48 - 48))
      ≡ n
six_digits-eq n h = omega arith

from_iso-written :
    (date : Date) (seconds micro : ℕ)
    → date.year < 10000
    → date.month < 100
    → date.day < 100
    → seconds < 86400
    → micro < 1_000_000
    → from_iso (written date seconds micro)
      ≡ days_of date * day_length + seconds * 1_000_000 + micro
unfolding from_iso written
from_iso-written date seconds micro y m d s u =
    let hours = two_digits-eq (seconds / 3600) (omega arith) in
    let minutes = two_digits-eq (seconds / 60 % 60) (omega arith) in
    let rest = two_digits-eq (seconds % 60) (omega arith) in
    let time : (seconds / 3600 * 3600 + seconds / 60 % 60 * 60 + seconds % 60) ≡ seconds =
      omega arith in
    elim (Bool-cases (eqb micro 0)) [
      | inl e ↦
          let none_left : micro ≡ 0 = ground arith in
          rw
            (
              e,
              four_digits-eq date.year y,
              two_digits-eq date.month m,
              two_digits-eq date.day d,
              hours,
              minutes,
              rest,
              time,
              none_left,
            )
            refl
      | inr e ↦
          rw
            (
              e,
              four_digits-eq date.year y,
              two_digits-eq date.month m,
              two_digits-eq date.day d,
              hours,
              minutes,
              rest,
              time,
              six_digits-eq micro u,
            )
            refl
    ]

from_iso-isoformat : (t : ℕ) → t < end_of_time → from_iso (isoformat t) ≡ t
unfolding isoformat
from_iso-isoformat t h =
    let bounds = date_bounds (t / day_length) (omega arith) in
    from_iso-written (date_of (t / day_length)) (t % day_length / 1_000_000) (t % 1_000_000)
      bounds.0 bounds.1 bounds.2 (omega arith) (omega arith)
    ∙ omega (arith, days_of-date_of (t / day_length))

-- Two times before the year 9600 with the same text are the same.
pub isoformat-injective :
    (t u : ℕ) → t < end_of_time → u < end_of_time → isoformat t ≡ isoformat u → t ≡ u
isoformat-injective t u h k e =
    sym (from_iso-isoformat t h) ∙ ap from_iso e ∙ from_iso-isoformat u k
