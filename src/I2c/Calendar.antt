-- ===== src/I2c/Calendar.antt =====
-- The calendar: how the clock's days, times and months add up.
use nano1g_unicorn_c.Base.{
  ℕ, zero, suc, ◌+◌, ◌*◌, ◌%◌, ◌≤◌, ◌<◌, ◌≡◌, ltb, Bool-cases, inl, inr, refl, arith, ap, sym, ◌∙◌,
  ltb→le,
}
use nano1g_unicorn_c.I2c.Rtc.{
  Clock, days_in_month, month_length, next_day, advance_days, advance_time, advance_clock,
}

-- A date of the calendar and a time of the day.
pub record IsDate (c : Clock) : Type 0 where
  pub sec_in : c.sec < 60
  pub minute_in : c.minute < 60
  pub hour_in : c.hour < 24
  pub wday_in : c.wday < 7
  pub mday_from : 1 ≤ c.mday
  pub mday_to : c.mday ≤ month_length c
  pub mon_from : 1 ≤ c.mon
  pub mon_to : c.mon ≤ 12
  pub year_in : c.year < 100

pub month_length_range : (c : Clock) → (1 ≤ month_length c) × (month_length c ≤ 31)
unfolding month_length days_in_month
month_length_range c = ground arith

month_length-mday : (c : Clock) (d : ℕ) → month_length (record c { mday = d }) ≡ month_length c
unfolding month_length
month_length-mday c d = refl

next_day-IsDate : (c : Clock) → IsDate c → IsDate (next_day c)
unfolding next_day
next_day-IsDate c v = elim (Bool-cases (ltb (month_length c) (c.mday + 1))) [
  | inl h ↦ rw h (elim (Bool-cases (ltb 12 (c.mon + 1))) [
    | inl k ↦
        let first = record c { mday = 1; mon = 1; year = (c.year + 1) % 100 } in
        rw k (record {
          sec_in = v.sec_in;
          minute_in = v.minute_in;
          hour_in = v.hour_in;
          wday_in = v.wday_in;
          mday_from = omega arith;
          mday_to = (month_length_range first).0;
          mon_from = omega arith;
          mon_to = omega arith;
          year_in = omega arith;
        })
    | inr k ↦
        let first = record c { mday = 1; mon = c.mon + 1 } in
        let le = ltb→le 12 (c.mon + 1) k in
        rw k (record {
          sec_in = v.sec_in;
          minute_in = v.minute_in;
          hour_in = v.hour_in;
          wday_in = v.wday_in;
          mday_from = omega arith;
          mday_to = (month_length_range first).0;
          mon_from = omega arith;
          mon_to = le;
          year_in = v.year_in;
        })
  ])
  | inr h ↦
      let le = ltb→le (month_length c) (c.mday + 1) h in
      rw h (record {
        sec_in = v.sec_in;
        minute_in = v.minute_in;
        hour_in = v.hour_in;
        wday_in = v.wday_in;
        mday_from = omega arith;
        mday_to = omega (arith, le, month_length-mday c (c.mday + 1));
        mon_from = v.mon_from;
        mon_to = v.mon_to;
        year_in = v.year_in;
      })
]

advance_days-IsDate : (n : ℕ) (c : Clock) → IsDate c → IsDate (advance_days n c)
unfolding advance_days
advance_days-IsDate zero c v = v
advance_days-IsDate (suc n) c v = next_day-IsDate (advance_days n c) (advance_days-IsDate n c v)

advance_days-add :
    (m n : ℕ) (c : Clock) → advance_days (m + n) c ≡ advance_days m (advance_days n c)
unfolding advance_days
advance_days-add zero n c = let sum : 0 + n ≡ n = omega arith in ap (λ k. advance_days k c) sum
advance_days-add (suc m) n c =
    let sum : suc m + n ≡ suc (m + n) = omega arith in
    ap (λ k. advance_days k c) sum ∙ ap next_day (advance_days-add m n c)

-- A clock with another time and day of the week.
abbrev with_time : Clock → ℕ → ℕ → ℕ → ℕ → Clock
with_time c sec minute hour wday = record c { sec = sec; minute = minute; hour = hour; wday = wday }

module _ (sec minute hour wday : ℕ) where
  next_day-with_time :
      (c : Clock)
      → next_day (with_time c sec minute hour wday) ≡ with_time (next_day c) sec minute hour wday
  unfolding next_day month_length
  next_day-with_time c = elim (Bool-cases (ltb (month_length c) (c.mday + 1))) [
    | inl h ↦
        rw h (elim (Bool-cases (ltb 12 (c.mon + 1))) [ inl k ↦ rw k refl | inr k ↦ rw k refl ])
    | inr h ↦ rw h refl
  ]

  advance_days-with_time :
      (n : ℕ) (c : Clock)
      → advance_days n (with_time c sec minute hour wday)
        ≡ with_time (advance_days n c) sec minute hour wday
  unfolding advance_days
  advance_days-with_time zero c = refl
  advance_days-with_time (suc n) c =
      ap next_day (advance_days-with_time n c) ∙ next_day-with_time (advance_days n c)

-- What the steps of advance_time add up to.
abbrev total : Clock → ℕ
total c = c.sec + 60 * c.minute + 3600 * c.hour

advance_time-total :
    (c : Clock) (e : ℕ) → total (advance_time c e).0 + 86400 * (advance_time c e).1 ≡ total c + e
unfolding advance_time
advance_time-total c e = omega arith

advance_time-IsDate : (c : Clock) (e : ℕ) → IsDate c → IsDate (advance_time c e).0
unfolding advance_time month_length
advance_time-IsDate c e v = record {
  sec_in = omega arith;
  minute_in = omega arith;
  hour_in = omega arith;
  wday_in = omega arith;
  mday_from = v.mday_from;
  mday_to = v.mday_to;
  mon_from = v.mon_from;
  mon_to = v.mon_to;
  year_in = v.year_in;
}

pub advance_clock-IsDate : (c : Clock) (e : ℕ) → IsDate c → IsDate (advance_clock c e)
unfolding advance_clock
advance_clock-IsDate c e v =
    advance_days-IsDate (advance_time c e).1 (advance_time c e).0 (advance_time-IsDate c e v)

-- One time of the day is made up in one way.
module _ (s m h n s' m' h' n' : ℕ) (s_in : s < 60) (m_in : m < 60) (h_in : h < 24) (s'_in : s' < 60)
    (m'_in : m' < 60) (h'_in : h' < 24)
    (eq : s + 60 * m + 3600 * h + 86400 * n ≡ s' + 60 * m' + 3600 * h' + 86400 * n') where
  one_time : (s ≡ s') × (m ≡ m') × (h ≡ h') × (n ≡ n')
  one_time = (omega arith, omega arith, omega arith, omega arith)

same_clock :
    (c : Clock) (k k' s s' m m' h h' w w' : ℕ)
    → k ≡ k'
    → s ≡ s'
    → m ≡ m'
    → h ≡ h'
    → w ≡ w'
    → with_time (advance_days k c) s m h w ≡ with_time (advance_days k' c) s' m' h' w'
same_clock c k k' s s' m m' h h' w w' p q r t u = cc

-- The clock after a time, in the fields of advance_time.
advance_clock-with_time :
    (c : Clock) (e : ℕ)
    → let (t, n) = advance_time c e in
      advance_clock c e ≡ with_time (advance_days n c) t.sec t.minute t.hour t.wday
unfolding advance_clock advance_time
advance_clock-with_time c e =
    let (t, n) = advance_time c e in advance_days-with_time t.sec t.minute t.hour t.wday n c

-- A date to which a time is added twice is the date to which the sum is added.
pub advance_clock-add :
    (c : Clock) (a b : ℕ) → advance_clock (advance_clock c a) b ≡ advance_clock c (a + b)
unfolding advance_time
advance_clock-add c a b =
    let (t1, n1) = advance_time c a in
    let e = with_time (advance_days n1 c) t1.sec t1.minute t1.hour t1.wday in
    let (t2, n2) = advance_time e b in
    let (t, n) = advance_time c (a + b) in
    let (p, q, r, d) =
      one_time t2.sec t2.minute t2.hour (n2 + n1) t.sec t.minute t.hour n (omega arith)
        (omega arith) (omega arith) (omega arith) (omega arith) (omega arith)
        (omega
          (arith, advance_time-total c a, advance_time-total e b, advance_time-total c (a + b))) in
    ap (λ x. advance_clock x b) (advance_clock-with_time c a)
    ∙ advance_clock-with_time e b
    ∙ ap (λ x. with_time x t2.sec t2.minute t2.hour t2.wday)
        (advance_days-with_time t1.sec t1.minute t1.hour t1.wday n2 (advance_days n1 c))
    ∙ ap (λ x. with_time x t2.sec t2.minute t2.hour t2.wday) (sym (advance_days-add n2 n1 c))
    ∙ same_clock c (n2 + n1) n t2.sec t.sec t2.minute t.minute t2.hour t.hour t2.wday t.wday d p q r
        (omega (arith, d))
    ∙ sym (advance_clock-with_time c (a + b))
