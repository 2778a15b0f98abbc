-- ===== src/Prelude/Iso.antt =====
-- `datetime.isoformat` of a time in microseconds since the epoch, in UTC.
pub mod Reading
use mini_agent_go.Prelude.{
  ℕ, zero, suc, ◌+◌, ◌-◌, ◌*◌, ◌/◌, ◌%◌, ◌≤◌, ◌<◌, ◌≡◌, refl, [], ◌∷◌, ◌++◌, arith, ltb, leb, eqb,
  if◌then◌else◌, Text, codes,
}

-- the date of a day since the epoch, by the eras of 400 years that start on the first of March
unfoldable pub year_of_era : ℕ → ℕ
year_of_era doe = (doe - doe / 1460 + doe / 36524 - doe / 146096) / 365

unfoldable pub start_of_year : ℕ → ℕ
start_of_year yoe = 365 * yoe + yoe / 4 - yoe / 100

unfoldable pub month_index : ℕ → ℕ
month_index doy = (5 * doy + 2) / 153

unfoldable pub start_of_month : ℕ → ℕ
start_of_month mp = (153 * mp + 2) / 5

pub record Date : Type 0 where
  pub year : ℕ
  pub month : ℕ
  pub day : ℕ

date_in : ℕ → ℕ → ℕ → ℕ → Date
date_in era yoe doy mp =
    let m = if ltb mp 10 then mp + 3 else mp - 9 in
    record {
      year = yoe + era * 400 + (if leb m 2 then 1 else 0);
      month = m;
      day = doy - start_of_month mp + 1;
    }

unfoldable pub date_of : ℕ → Date
unfolding date_in year_of_era start_of_year month_index start_of_month
date_of days =
    let z = days + 719468 in
    let doe = z % 146097 in
    let yoe = year_of_era doe in
    let doy = doe - start_of_year yoe in date_in (z / 146097) yoe doy (month_index doy)

-- the last `w` digits
unfoldable pub pad : ℕ → ℕ → Text
pad zero n = []
pad (suc w) n = pad w (n / 10) ++ (n % 10 + 48) ∷ []

abbrev pub day_length : ℕ
day_length = 86_400_000_000

unfoldable pub written : Date → ℕ → ℕ → Text
unfolding pad
written date seconds micro =
    pad 4 date.year
    ++ b'-' ∷ pad 2 date.month
    ++ b'-' ∷ pad 2 date.day
    ++ b'T' ∷ pad 2 (seconds / 3600)
    ++ b':' ∷ pad 2 (seconds / 60 % 60)
    ++ b':' ∷ pad 2 (seconds % 60)
    ++ (if eqb micro 0 then [] else b'.' ∷ pad 6 micro)

-- without an offset, as the database gives times back
unfoldable pub isoformat : ℕ → Text
unfolding date_of written
isoformat t = written (date_of (t / day_length)) (t % day_length / 1_000_000) (t % 1_000_000)

-- with the offset of UTC, as `datetime.now(tz=UTC)` has it
unfoldable pub isoformat_utc : ℕ → Text
unfolding isoformat
isoformat_utc t = isoformat t ++ codes "+00:00"

epoch : isoformat 0 ≡ codes "1970-01-01T00:00:00"
unfolding isoformat
epoch = refl

leap_day : isoformat 1_709_251_199_000_500 ≡ codes "2024-02-29T23:59:59.000500"
unfolding isoformat
leap_day = refl

year_end : isoformat_utc 1_735_689_599_000_000 ≡ codes "2024-12-31T23:59:59+00:00"
unfolding isoformat_utc
year_end = refl

yoe_le :
    (doe : ℕ) → doe < 146097 → (start_of_year (year_of_era doe) ≤ doe) × (year_of_era doe < 400)
unfolding start_of_year year_of_era
yoe_le doe h = omega arith

doy_le : (doe : ℕ) → doe < 146097 → doe - start_of_year (year_of_era doe) ≤ 365
unfolding start_of_year year_of_era
doy_le doe h = omega arith

month_le : (doy : ℕ) → doy ≤ 365 → (start_of_month (month_index doy) ≤ doy) × (month_index doy < 12)
unfolding start_of_month month_index
month_le doy h = omega arith

day_le : (doy : ℕ) → doy ≤ 365 → doy - start_of_month (month_index doy) < 31
unfolding start_of_month month_index
day_le doy h = omega arith
