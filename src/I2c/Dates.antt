-- ===== src/I2c/Dates.antt =====
-- The clock's arithmetic: a valid date stays valid, and time passes alike in one piece or in several.
use mathlib.Core.Path.{subst}
use nano1g_unicorn_c.Base.{
  ℕ, zero, suc, ◌+◌, ◌%◌, ◌<◌, ◌≡◌, Bool, true, false, ◌&&◌, ◌==◌, Array, Bool-cases, inl, inr,
  refl, arith, ap, sym, ◌∙◌, ==→eq, split_and,
}
use nano1g_unicorn_c.I2c.Rtc.{
  month_length, days_in_month, default_rtc, Clock, dec2bcd, bcd2dec, from_fields, to_fields,
  advance_clock, pcf_rtc_advance_fields,
}
use nano1g_unicorn_c.I2c.Calendar.{
  IsDate, month_length_range, advance_clock-IsDate, advance_clock-add,
}

-- The binary-coded decimals of the numbers below 100.
are_coded : ℕ → Bool
are_coded zero = true
are_coded (suc n) = (bcd2dec (dec2bcd n) == n) && are_coded n

are_coded-below : (n v : ℕ) → are_coded n ≡ true → v < n → bcd2dec (dec2bcd v) ≡ v
unfolding are_coded
are_coded-below zero v h k = absurd (omega arith)
are_coded-below (suc n) v h k =
    let (here, below) = split_and (bcd2dec (dec2bcd n) == n) (are_coded n) h in
    elim (Bool-cases (v == n)) [
      | inl e ↦
          let same = ==→eq v n e in
          ap (λ x. bcd2dec (dec2bcd x)) same ∙ ==→eq (bcd2dec (dec2bcd n)) n here ∙ sym same
      | inr e ↦ are_coded-below n v below (ground arith)
    ]

pub bcd2dec-dec2bcd : (v : ℕ) → v < 100 → bcd2dec (dec2bcd v) ≡ v
unfolding are_coded bcd2dec dec2bcd
bcd2dec-dec2bcd v h = are_coded-below 100 v refl h

month_length_in : (c : Clock) → IsDate c → c.mday < 100
month_length_in c v = omega (arith, v.mday_to, (month_length_range c).1)

-- The fields of a date give the date back.
from_fields-to_fields : (c : Clock) → IsDate c → from_fields (to_fields c) ≡ c
unfolding from_fields to_fields
from_fields-to_fields c v =
    let of = bcd2dec-dec2bcd in
    let week : c.wday % 7 ≡ c.wday = omega (arith, v.wday_in) in
    let day : (c.mday == 0) ≡ false = ground (arith, v.mday_from) in
    let month : (c.mon == 0) ≡ false = ground (arith, v.mon_from) in
    rw
      (
        week,
        of c.sec (omega (arith, v.sec_in)),
        of c.minute (omega (arith, v.minute_in)),
        of c.hour (omega (arith, v.hour_in)),
        of c.wday (omega (arith, v.wday_in)),
        of c.mday (month_length_in c v),
        of c.mon (omega (arith, v.mon_to)),
        of c.year v.year_in,
        day,
        month,
      )
      refl

-- Seven fields that hold a valid date.
abbrev pub HoldDate : Array ℕ → Type 0
HoldDate fields = IsDate (from_fields fields)

-- From fields that hold a valid date, the fields after any time hold a valid date: no field leaves its
-- range, and no day the length of its month, leap years included.
pub advance_fields-IsDate :
    (fields : Array ℕ) (elapsed : ℕ)
    → HoldDate fields
    → HoldDate (pcf_rtc_advance_fields fields elapsed)
unfolding pcf_rtc_advance_fields
advance_fields-IsDate fields elapsed v =
    let w = advance_clock-IsDate (from_fields fields) elapsed v in
    subst IsDate (sym (from_fields-to_fields (advance_clock (from_fields fields) elapsed) w)) w

-- From fields that hold a valid date, it does not matter whether time passes in two pieces or in one,
-- however long they are.
pub advance_fields-add :
    (fields : Array ℕ) (a b : ℕ)
    → HoldDate fields
    → pcf_rtc_advance_fields (pcf_rtc_advance_fields fields a) b
      ≡ pcf_rtc_advance_fields fields (a + b)
unfolding pcf_rtc_advance_fields
advance_fields-add fields a b v =
    let c = from_fields fields in
    ap (λ x. to_fields (advance_clock x b))
      (from_fields-to_fields (advance_clock c a) (advance_clock-IsDate c a v))
    ∙ ap to_fields (advance_clock-add c a b)

-- The date of a chip whose clock was not set is valid.
pub default-HoldDate : HoldDate default_rtc
unfolding from_fields bcd2dec month_length days_in_month default_rtc
default-HoldDate = record {
  sec_in = omega arith;
  minute_in = omega arith;
  hour_in = omega arith;
  wday_in = omega arith;
  mday_from = omega arith;
  mday_to = omega arith;
  mon_from = omega arith;
  mon_to = omega arith;
  year_in = omega arith;
}
