-- ===== src/Http/Calendar/Laws.antt =====
-- The civil date of a time is found, it is a date of the calendar, and it gives the time back.
use serverless_db.Base.{
  ℕ, zero, suc, ◌+◌, ◌-◌, ◌*◌, ◌/◌, ◌%◌, ◌≤◌, ◌<◌, ◌≡◌, refl, arith, inl, inr, Bool-cases, some,
  List, [], ◌∷◌, length, get_elem?, ltb,
}
use serverless_db.Http.Calendar.{
  DateTime, is_leap, days_in_year, year_loop, month_loop, months_of, days_to_ymd, unix_to_datetime,
}

-- The days before the year behind the year `k`, counted from the year 1: the leap years up to `k`
-- have one day more.
unfoldable pub days_before_year : ℕ → ℕ
days_before_year k = 365 * k + k / 4 - k / 100 + k / 400

days_before_year-suc :
    (k : ℕ) → days_before_year (k + 1) ≡ days_before_year k + days_in_year (k + 1)
unfolding days_before_year days_in_year is_leap
days_before_year-suc k = ground arith

days_before_year_from : (k : ℕ) → 1969 ≤ k → days_before_year 1969 ≤ days_before_year k
unfolding days_before_year
days_before_year_from k h = omega arith

days_in_year-le : (k : ℕ) → 365 ≤ days_in_year (k + 1)
unfolding days_in_year
days_in_year-le k = ground arith

year_loop_total :
    (fuel k remaining : ℕ)
    → remaining < fuel
    → (k' r : ℕ) × (year_loop fuel (k + 1) remaining ≡ some (k' + 1, r))
      × (r < days_in_year (k' + 1))
      × (days_before_year k + remaining ≡ days_before_year k' + r)
      × (k ≤ k')
unfolding year_loop
year_loop_total zero k remaining h = absurd (omega arith)
year_loop_total (suc fuel) k remaining h =
    elim (Bool-cases (ltb remaining (days_in_year (k + 1)))) [
      | inl e ↦ (k, remaining, rw e refl, ground (arith, e), refl, omega arith)
      | inr e ↦
          let ge : days_in_year (k + 1) ≤ remaining = ground (arith, e) in
          let (k', r, run, below, days, le) =
            year_loop_total fuel (k + 1) (remaining - days_in_year (k + 1))
              (omega (arith, ge, days_in_year-le k)) in
          (
            k',
            r,
            rw e run,
            below,
            omega (arith, days_before_year-suc k, days, ge),
            omega (arith, le),
          )
    ]

-- The days of the first `k` months.
abbrev pub sum_first : ℕ → List ℕ → ℕ
sum_first zero months = 0
sum_first (suc k) [] = 0
sum_first (suc k) (dm ∷ months) = dm + sum_first k months

month_loop_total :
    (months : List ℕ) (i remaining : ℕ)
    → remaining < sum_first (length months) months
    → (k dm r : ℕ) × (month_loop months i remaining ≡ (i + k + 1, r))
      × (get_elem? months k ≡ some dm)
      × (r < dm)
      × (remaining ≡ sum_first k months + r)
unfolding month_loop
month_loop_total [] i remaining h = absurd (omega arith)
month_loop_total (dm ∷ months) i remaining h = elim (Bool-cases (ltb remaining dm)) [
  | inl e ↦ (0, dm, remaining, rw e (ground arith), refl, ground (arith, e), omega arith)
  | inr e ↦
      let (k, dk, r, run, found, below, days) =
        month_loop_total months (i + 1) (remaining - dm) (ground (arith, e)) in
      (suc k, dk, r, rw e (ground (arith, run)), found, below, ground (arith, days, e))
]

-- The days from the first day of 1970 to a date.
abbrev pub days_to_date : ℕ → ℕ → ℕ → ℕ
days_to_date y mo d =
    days_before_year (y - 1)
    - days_before_year 1969
    + sum_first (mo - 1) (months_of (is_leap y))
    + (d - 1)

months_of-days_in_year : (y : ℕ) → sum_first 12 (months_of (is_leap y)) ≡ days_in_year y
unfolding days_in_year months_of
months_of-days_in_year y = ground arith

-- A date of the calendar.
pub record IsDate (y mo d : ℕ) : Type 0 where
  pub year : 1970 ≤ y
  pub month : (1 ≤ mo) × (mo ≤ 12)
  pub length_of_month : ℕ
  pub in_month : get_elem? (months_of (is_leap y)) (mo - 1) ≡ some length_of_month
  pub day : (1 ≤ d) × (d ≤ length_of_month)

get_elem?_lt {ℓ} :
    {A : Type ℓ} (xs : List A) (i : ℕ) (x : A) → get_elem? xs i ≡ some x → i < length xs
get_elem?_lt [] i x h = cc
get_elem?_lt (y ∷ xs) zero x h = omega arith
get_elem?_lt (y ∷ xs) (suc i) x h = omega (arith, get_elem?_lt xs i x h)

month_shift :
    (months : List ℕ) (m dm : ℕ)
    → get_elem? months m ≡ some dm
    → get_elem? months (m + 1 - 1) ≡ some dm
month_shift months m dm h = let e : m + 1 - 1 ≡ m = omega arith in rw e h

found_date :
    (days k r m r' : ℕ)
    → year_loop (days + 1) (1969 + 1) days ≡ some (k + 1, r)
    → month_loop (months_of (is_leap (k + 1))) 0 r ≡ (0 + m + 1, r')
    → days_to_ymd (days + 1) days ≡ some (k + 1, m + 1, r' + 1)
unfolding days_to_ymd
found_date days k r m r' run run' = ground (arith, run, run')

to_date :
    (days k r m r' : ℕ)
    → days_before_year 1969 + days ≡ days_before_year k + r
    → r ≡ sum_first m (months_of (is_leap (k + 1))) + r'
    → 1969 ≤ k
    → days_to_date (k + 1) (m + 1) (r' + 1) ≡ days
to_date days k r m r' total total' le =
    let e : k + 1 - 1 ≡ k = omega arith in
    let e' : m + 1 - 1 ≡ m = omega arith in
    rw (e, e') (omega (arith, total, total', days_before_year_from k le))

-- Every number of days has its date within one round more than there are days: the date is one of the
-- calendar, and the days from 1970 to it are the number.
days_to_ymd_total :
    (days : ℕ)
    → (y mo d : ℕ) × (days_to_ymd (days + 1) days ≡ some (y, mo, d))
      × IsDate y mo d
      × (days_to_date y mo d ≡ days)
unfolding days_to_ymd
days_to_ymd_total days =
    let (k, r, run, below, total, le) = year_loop_total (days + 1) 1969 days (omega arith) in
    let in_year : r < sum_first 12 (months_of (is_leap (k + 1))) =
      omega (arith, below, months_of-days_in_year (k + 1)) in
    let (m, dm, r', run', found, below', total') =
      month_loop_total (months_of (is_leap (k + 1))) 0 r in_year in
    let date : IsDate (k + 1) (m + 1) (r' + 1) = record {
      year = omega (arith, le);
      month = (omega arith, omega (arith, get_elem?_lt (months_of (is_leap (k + 1))) m dm found));
      length_of_month = dm;
      in_month = month_shift (months_of (is_leap (k + 1))) m dm found;
      day = (omega arith, omega (arith, below'));
    } in
    (
      k + 1,
      m + 1,
      r' + 1,
      found_date days k r m r' run run',
      date,
      to_date days k r m r' total total' le,
    )

-- Every time has its date and its time of day, from which the time is had back.
pub unix_to_datetime_total :
    (secs : ℕ)
    → (t : DateTime) × (unix_to_datetime secs ≡ some t)
      × IsDate t.year t.month t.day
      × (t.hour < 24)
      × (t.minute < 60)
      × (t.second < 60)
      × (((days_to_date t.year t.month t.day * 24 + t.hour) * 60 + t.minute) * 60 + t.second ≡ secs)
unfolding unix_to_datetime
unix_to_datetime_total secs =
    let (y, mo, d, run, date, days) = days_to_ymd_total (secs / 86400) in
    let t : DateTime = record {
      year = y;
      month = mo;
      day = d;
      hour = (secs % 86400) / 3600;
      minute = ((secs % 86400) % 3600) / 60;
      second = (secs % 86400) % 60;
    } in
    (t, ground (arith, run), date, omega arith, omega arith, omega arith, omega (arith, days))
