-- ===== src/Run/Skip.antt =====
-- How far the loop skips idle time.
use native.Mathlib.Nat.{mul-le-mul_right}
use nano1g_unicorn_c.Base.{
  if_false, if_true, ℕ, ◌+◌, ◌-◌, ◌*◌, ◌/◌, ◌≤◌, ◌<◌, ◌≡◌, ◌⊎◌, inl, inr, refl, ap, arith, Bool,
  true, false, ◌==◌, ltb, if◌then◌else◌, Bool-cases, ltb→le,
}
use nano1g_unicorn_c.Word.{u64}
use nano1g_unicorn_c.State.{State, Opts}
use nano1g_unicorn_c.Script.{Script, script_done}
use nano1g_unicorn_c.Bus.Idle.{idle_advance_limit}
use nano1g_unicorn_c.Bus.Deadlines.{Deadline, deadline_of, idle_advance_limit-deadline}
use nano1g_unicorn_c.Run.{lesser, slice_of, script_limit, budget_limit, advance_ticks}

script_limit-within :
    (o : Opts) (p : Script) (t : ℕ)
    → 1 < script_limit o p t
    → (script_limit o p t ≤ t)
      × ((o.has_input_script ≡ false)
          ⊎ ((script_limit o p t ≤ p.wait_left) ⊎ (script_done p ≡ true)))
unfolding script_limit
script_limit-within o p t h = elim (Bool-cases o.has_input_script) [
  | inr none ↦ (ground arith, inl none)
  | inl some_script ↦ elim (Bool-cases (p.wait_left == 0)) [
    | inr waits ↦ (ground arith, inr (inl (ground arith)))
    | inl waits_not ↦ elim (Bool-cases (script_done p)) [
      | inl done ↦ (ground arith, inr (inr done))
      | inr more ↦ absurd (ground arith)
    ]
  ]
]

-- One tick less is short of what is left.
div-short : (n slice : ℕ) → 0 < n → 0 < slice → (u64 (n + slice - 1) / slice - 1) * slice < n
div-short n slice h p = grind arith

budget_limit-ends :
    (o : Opts) (n t : ℕ)
    → o.run_forever ≡ false
    → budget_limit o n t ≡ lesser t (u64 (n + slice_of o n - 1) / slice_of o n)
unfolding budget_limit
budget_limit-ends o n t h = if_false o.run_forever _ _ h

budget_limit-within :
    (o : Opts) (n t : ℕ)
    → 0 < n
    → 0 < slice_of o n
    → (budget_limit o n t ≤ t)
      × ((o.run_forever ≡ true) ⊎ ((budget_limit o n t - 1) * slice_of o n < n))
unfolding budget_limit
budget_limit-within o n t h p = elim (Bool-cases o.run_forever) [
  | inl forever ↦ (ground arith, inl forever)
  | inr ends ↦
      let q = u64 (n + slice_of o n - 1) / slice_of o n in
      let low : lesser t q ≤ q = ground arith in
      let fewer : (lesser t q - 1) * slice_of o n ≤ (q - 1) * slice_of o n =
        mul-le-mul_right (slice_of o n) (omega arith) in
      let short = div-short n (slice_of o n) h p in
      (
        ground arith,
        inr (
            omega (
              arith,
              ap (λ (x : ℕ). (x - 1) * slice_of o n) (budget_limit-ends o n t ends),
              fewer,
              short,
            )),
      )
]

forward_is_on : (b : Bool) (x : ℕ) → ltb 1 (if b then x else 1) ≡ true → b ≡ true
forward_is_on true x h = refl
forward_is_on false x h = absurd (cc h)

if_le :
    (b : Bool) (s : State)
    → ltb 1 (if b then idle_advance_limit s else 1) ≡ true
    → (if b then idle_advance_limit s else 1) ≤ idle_advance_limit s
if_le true s h = omega arith
if_le false s h = absurd (cc h)

lowered :
    (a d : Bool) (w u v : ℕ)
    → v ≤ u
    → (a ≡ false) ⊎ ((u ≤ w) ⊎ (d ≡ true))
    → (a ≡ false) ⊎ ((v ≤ w) ⊎ (d ≡ true))
lowered a d w u v le (inl h) = inl h
lowered a d w u v le (inr (inl h)) = inr (inl (omega arith))
lowered a d w u v le (inr (inr h)) = inr (inr h)

-- Where the loop skips more than one tick, fast-forwarding is on, no deadline of the power chip that
-- lies ahead is passed, a wait of the input script is not overrun, or there is no script, or it is
-- done, and with a budget of instructions one tick less would not have spent it.
pub advance_ticks-within :
    (o : Opts) (s : State) (p : Script) (n : ℕ) (k : Deadline)
    → 0 < n
    → 0 < slice_of o n
    → s.counters.device_ticks < deadline_of s k
    → 1 < advance_ticks o s p n
    → (o.idle_fast_forward ≡ true)
      × (s.counters.device_ticks + advance_ticks o s p n ≤ deadline_of s k)
      × ((o.has_input_script ≡ false)
          ⊎ ((advance_ticks o s p n ≤ p.wait_left) ⊎ (script_done p ≡ true)))
      × ((o.run_forever ≡ true) ⊎ ((advance_ticks o s p n - 1) * slice_of o n < n))
unfolding advance_ticks
advance_ticks-within o s p n k h pos ahead skips =
    let t = if o.idle_fast_forward then idle_advance_limit s else 1 in
    let u = script_limit o p t in
    elim (Bool-cases (ltb 1 t)) [
      | inr one ↦
          absurd (omega (arith, ltb→le 1 t one, if_false (ltb 1 t) (budget_limit o n u) t one))
      | inl more ↦
          let chosen : advance_ticks o s p n ≡ budget_limit o n u =
            if_true (ltb 1 t) (budget_limit o n u) t more in
          let (b, b') = budget_limit-within o n u h pos in
          let (c, c') = script_limit-within o p t (omega (arith, chosen, b)) in
          let idle : t ≤ idle_advance_limit s = if_le o.idle_fast_forward s more in
          let (d, e, f) = idle_advance_limit-deadline s k ahead in
          rw chosen (
            forward_is_on o.idle_fast_forward (idle_advance_limit s) more,
            omega arith,
            lowered o.has_input_script (script_done p) p.wait_left u (budget_limit o n u) b c',
            b',
          )
    ]
