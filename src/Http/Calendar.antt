-- ===== src/Http/Calendar.antt =====
-- Times as civil dates, rust-core/src/http.rs: `unix_to_datetime`, `days_to_ymd` and the text of
-- `now_iso`. Seconds and days are counted from 1970 and not negative, as the clock gives them.
pub mod Laws
use serverless_db.Base.{
  ℕ, zero, suc, ◌+◌, ◌-◌, ◌*◌, ◌/◌, ◌%◌, Bool, ◌&&◌, ◌||◌, not, Text, codes, Option, none, some,
  List, [], ◌∷◌, ◌++◌, ltb, ◌==◌, if◌then◌else◌,
}
use serverless_db.Text.Decimal.{zero_padded}

pub record DateTime : Type 0 where
  pub year : ℕ
  pub month : ℕ
  pub day : ℕ
  pub hour : ℕ
  pub minute : ℕ
  pub second : ℕ

unfoldable pub is_leap : ℕ → Bool
is_leap y = (y % 4 == 0 && not (y % 100 == 0)) || y % 400 == 0

unfoldable pub days_in_year : ℕ → ℕ
unfolding is_leap
days_in_year y = if is_leap y then 366 else 365

-- The loop over the years, which ends with the year and the days that remain in it.
unfoldable pub year_loop : ℕ → ℕ → ℕ → Option (ℕ × ℕ)
unfolding days_in_year
year_loop zero y remaining = none
year_loop (suc fuel) y remaining =
    let later = year_loop fuel (y + 1) (remaining - days_in_year y) in
    if ltb remaining (days_in_year y) then some (y, remaining) else later

unfoldable pub months_of : Bool → List ℕ
months_of leap =
    31 ∷ (if leap then 29 else 28) ∷ 31 ∷ 30 ∷ 31 ∷ 30 ∷ 31 ∷ 31 ∷ 30 ∷ 31 ∷ 30 ∷ 31 ∷ []

-- The loop over the months; where no month holds the day, `mo` stays 0.
unfoldable pub month_loop : List ℕ → ℕ → ℕ → ℕ × ℕ
month_loop [] i remaining = (0, remaining)
month_loop (dm ∷ months) i remaining =
    let later = month_loop months (i + 1) (remaining - dm) in
    if ltb remaining dm then (i + 1, remaining) else later

abbrev pub with_month : ℕ → ℕ × ℕ → ℕ × ℕ × ℕ
with_month y (mo, remaining) = (y, mo, remaining + 1)

-- Each round of the loop takes 365 days or more, so `days + 1` is fuel enough.
unfoldable pub days_to_ymd : ℕ → ℕ → Option (ℕ × ℕ × ℕ)
unfolding year_loop month_loop is_leap months_of
days_to_ymd fuel days = elim (year_loop fuel 1970 days) [
  | none ↦ none
  | some (y, remaining) ↦ some (with_month y (month_loop (months_of (is_leap y)) 0 remaining))
]

unfoldable pub unix_to_datetime : ℕ → Option DateTime
unfolding days_to_ymd
unix_to_datetime secs =
    let rem = secs % 86400 in
    elim (days_to_ymd (secs / 86400 + 1) (secs / 86400)) [
      | none ↦ none
      | some (y, mo, d) ↦ some (record {
        year = y;
        month = mo;
        day = d;
        hour = rem / 3600;
        minute = (rem % 3600) / 60;
        second = rem % 60;
      })
    ]

-- `{y:04}-{mo:02}-{d:02}T{h:02}:{mi:02}:{s:02}Z`, up to the year 9999.
unfoldable pub iso_text : DateTime → Text
iso_text t =
    zero_padded 4 t.year
    ++ (codes "-"
        ++ (zero_padded 2 t.month
            ++ (codes "-"
                ++ (zero_padded 2 t.day
                    ++ (codes "T"
                        ++ (zero_padded 2 t.hour
                            ++ (codes ":"
                                ++ (zero_padded 2 t.minute
                                    ++ (codes ":" ++ (zero_padded 2 t.second ++ codes "Z"))))))))))
