-- ===== src/Kernel/Calendar.antt =====
-- Python's proleptic Gregorian calendar, as `datetime.isoformat` prints it.
use Prim.Native.String.{◌++◌}
use engram_mesh.Common.{
  ℕ, ◌+◌, ◌-◌, ◌*◌, ◌/◌, ◌%◌, String, Bool, not, ◌&&◌, ◌||◌, eqb, leb, ltb, if◌then◌else◌, ◌≡◌,
  refl,
}
use engram_mesh.Kernel.Text.{digits_of}

pub record Civil : Type 0 where
  pub year : ℕ
  pub month : ℕ
  pub day : ℕ

-- Days of the year before the month, in a common year.
days_before_month : ℕ → ℕ
days_before_month m =
    if leb m 1
    then 0
    else if eqb m 2
    then 31
    else if eqb m 3
    then 59
    else if eqb m 4
    then 90
    else if eqb m 5
    then 120
    else if eqb m 6
    then 151
    else if eqb m 7
    then 181
    else if eqb m 8
    then 212
    else if eqb m 9
    then 243
    else if eqb m 10
    then 273
    else if eqb m 11
    then 304
    else 334

days_before : Bool → ℕ → ℕ
unfolding days_before_month
days_before leap m = days_before_month m + (if leap && ltb 2 m then 1 else 0)

-- Month and day of the `n`-th day of a year, counted from 0: a first guess, one month too far at most.
month_day : ℕ → Bool → ℕ → Civil
unfolding days_before
month_day year leap n =
    let guess = (n + 50) / 32 in
    let month = if ltb n (days_before leap guess) then guess - 1 else guess in
    record { year = year; month = month; day = n - days_before leap month + 1 }

-- The date of a day counted from 0001-01-01.
unfoldable pub civil : ℕ → Civil
unfolding month_day
civil days =
    let n400 = days / 146097 in
    let r400 = days % 146097 in
    let n100 = r400 / 36524 in
    let r100 = r400 % 36524 in
    let n4 = r100 / 1461 in
    let r4 = r100 % 1461 in
    let n1 = r4 / 365 in
    let year = n400 * 400 + n100 * 100 + n4 * 4 + n1 + 1 in
    if eqb n1 4 || eqb n100 4
    then record { year = year - 1; month = 12; day = 31 }
    else month_day year (eqb n1 3 && (not (eqb n4 24) || eqb n100 3)) (r4 % 365)

-- `YYYY-MM-DDTHH:MM:SS[.ffffff]` of microseconds since 0001-01-01T00:00.
unfoldable pub wall_text : ℕ → String
unfolding civil
wall_text micros =
    let date = civil (micros / 86_400_000_000) in
    let seconds = micros / 1_000_000 in
    let fraction = micros % 1_000_000 in
    digits_of 10 4 date.year
    ++ ("-"
        ++ (digits_of 10 2 date.month
            ++ ("-"
                ++ (digits_of 10 2 date.day
                    ++ ("T"
                        ++ (digits_of 10 2 (seconds / 3600 % 24)
                            ++ (":"
                                ++ (digits_of 10 2 (seconds / 60 % 60)
                                    ++ (":"
                                        ++ (digits_of 10 2 (seconds % 60)
                                            ++ (if eqb fraction 0
                                                then ""
                                                else "." ++ digits_of 10 6 fraction)))))))))))

wall_text_2021 : wall_text 63_745_056_000_000_000 ≡ "2021-01-01T00:00:00"
unfolding wall_text digits_of
wall_text_2021 = refl

leap_day : civil 738_214 ≡ record { year = 2022; month = 3; day = 1 }
unfolding civil
leap_day = refl
