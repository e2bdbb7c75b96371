-- ===== src/Run/Progress.antt =====
-- The loop ends with its budget, and what an advance may skip.
use nano1g_unicorn_c.Base.{
  ℕ, zero, suc, ◌-◌, ◌*◌, ◌^◌, ◌≤◌, ◌<◌, ◌≡◌, ◌≢◌, inl, inr, refl, arith, Bool, true, false, not,
  ◌&&◌, ltb, ◌==◌, if◌then◌else◌, Core, cpu, Bool-cases, ltb→lt,
}
use nano1g_unicorn_c.Word.{u64}
use nano1g_unicorn_c.State.{State, Opts}
use nano1g_unicorn_c.Script.{Script}
use nano1g_unicorn_c.Cpu.{Unicorn}
use nano1g_unicorn_c.Bus.Access.{bus_tick}
use nano1g_unicorn_c.Bus.Idle.{idle_advance_limit}
use nano1g_unicorn_c.Bus.Deadlines.{idle_advance_limit_le}
use nano1g_unicorn_c.Run.{
  Session, Leave, budget_spent, no_more_rounds, Verdict, goes_on, failed, woken, slice_of,
  script_limit, budget_limit, advance_ticks, advance_round, turn_round, device_turn, after_cop,
  after_cpu, play_round, step_slice, count_turn, carry_on, run_loop,
}

-- The options of a run with a budget.
pub record IsBounded (o : Opts) : Type 0 where
  pub ends : o.run_forever ≡ false
  pub slice_pos : 0 < o.slice_insns
  pub slice_in : o.slice_insns < 2 ^ 32

slice_range :
    (o : Opts) (n : ℕ)
    → IsBounded o
    → 0 < n
    → (0 < slice_of o n) × (slice_of o n ≤ n) × (slice_of o n < 2 ^ 32)
unfolding slice_of
slice_range o n b h = rw b.ends (ground (arith, b.slice_pos, b.slice_in))

script_limit_le : (o : Opts) (p : Script) (t : ℕ) → 1 ≤ t → script_limit o p t ≤ t
unfolding script_limit
script_limit_le o p t h = ground arith

budget_limit_le : (o : Opts) (n t : ℕ) → budget_limit o n t ≤ t
unfolding budget_limit
budget_limit_le o n t = ground arith

-- The ticks before the script and the budget are looked at.
abbrev idle_ticks : Opts → State → ℕ
idle_ticks o s = if o.idle_fast_forward then idle_advance_limit s else 1

idle_ticks_le : (o : Opts) (s : State) → idle_ticks o s ≤ 65536
idle_ticks_le o s = ground (arith, idle_advance_limit_le s)

advance_ticks_le : (o : Opts) (s : State) (p : Script) (n : ℕ) → advance_ticks o s p n ≤ 65536
unfolding advance_ticks
advance_ticks_le o s p n = elim (Bool-cases (ltb 1 (idle_ticks o s))) [
  | inl h ↦ rw h (
      omega (
        arith,
        ltb→lt 1 (idle_ticks o s) h,
        idle_ticks_le o s,
        script_limit_le o p (idle_ticks o s),
        budget_limit_le o n (script_limit o p (idle_ticks o s)),
      ))
  | inr h ↦ rw h (idle_ticks_le o s)
]

scheduled_pos : (t slice : ℕ) → 1 < t → t ≤ 65536 → 0 < slice → slice < 2 ^ 32 → 0 < u64 (t * slice)
scheduled_pos t slice a b c d =
    let below : t * slice ≤ 65536 * slice = grind arith in
    let above : slice ≤ t * slice = grind arith in omega arith

module _ {E : Type 0} (uc : Unicorn E)
    (emulate : State → E → Core → ℕ → ℕ → (State × E) × Bool) where
  -- A round that goes on takes from the budget.
  advance_round-less :
      (o : Opts) (r : Session E) (t : ℕ)
      → IsBounded o
      → 0 < r.remaining
      → 1 < t
      → t ≤ 65536
      → (advance_round uc emulate o r t).0.remaining < r.remaining
  unfolding advance_round
  advance_round-less o r t b h a c =
      let (pos, le, small) = slice_range o r.remaining b h in
      let some_insns = scheduled_pos t (slice_of o r.remaining) a c pos small in
      rw b.ends (ground (arith, some_insns))

  -- A result that is no end takes from the budget.
  abbrev Falls : ℕ → Session E × Verdict → Type 0
  Falls n (q, v) = v ≡ goes_on → q.remaining < n

  Falls-wake :
      (n : ℕ) (c : Bool) (q r : Session E)
      → q.remaining < n
      → Falls n (if c then (q, goes_on) else (r, woken))
  Falls-wake n true q r h = λ v. h
  Falls-wake n false q r h = λ v. absurd (cc v)

  Falls-if :
      (n : ℕ) (c : Bool) (x y : Session E × Verdict)
      → (c ≡ true → Falls n x)
      → Falls n y
      → Falls n (if c then x else y)
  Falls-if n true x y hx hy = hx refl
  Falls-if n false x y hx hy = hy

  less_if :
      (o : Opts) (a n slice : ℕ)
      → o.run_forever ≡ false
      → 0 < n
      → 0 < slice
      → (if o.run_forever then n else n - slice) < n
  less_if o a n slice e h p = rw e (omega arith)

  device_turn-Falls :
      (o : Opts) (r : Session E) (s : State) (e : E)
      → IsBounded o
      → 0 < r.remaining
      → Falls r.remaining (device_turn uc emulate o r s e)
  unfolding device_turn
  device_turn-Falls o r s e b h =
      let (pos, le, small) = slice_range o r.remaining b h in
      Falls-wake r.remaining ((bus_tick uc.regs s e).0.i2c.pcf_wake_requests == 0) _ _
        (less_if o 0 r.remaining (slice_of o r.remaining) b.ends h pos)

  after_cop-Falls :
      (o : Opts) (r : Session E) (x : (State × E) × Bool)
      → IsBounded o
      → 0 < r.remaining
      → Falls r.remaining (after_cop uc emulate o r x)
  unfolding after_cop
  after_cop-Falls o r ((s, e), true) b h = device_turn-Falls o r s e b h
  after_cop-Falls o r ((s, e), false) b h = λ v. absurd (cc v)

  after_cpu-Falls :
      (o : Opts) (r : Session E) (x : (State × E) × Bool)
      → IsBounded o
      → 0 < r.remaining
      → Falls r.remaining (after_cpu uc emulate o r x)
  unfolding after_cpu
  after_cpu-Falls o r ((s, e), true) b h = after_cop-Falls o r _ b h
  after_cpu-Falls o r ((s, e), false) b h = λ v. absurd (cc v)

  play_round-Falls :
      (o : Opts) (r : Session E)
      → IsBounded o
      → 0 < r.remaining
      → Falls r.remaining (play_round uc emulate o r)
  unfolding play_round turn_round
  play_round-Falls o r b h =
      let t = advance_ticks o r.state r.script r.remaining in
      Falls-if r.remaining (ltb 1 t) _ _
        (λ a v.
          advance_round-less o r t b h (ltb→lt 1 t a)
            (advance_ticks_le o r.state r.script r.remaining))
        (after_cpu-Falls o r
          (step_slice uc emulate (count_turn r.state (slice_of o r.remaining)) r.regs cpu
            (slice_of o r.remaining))
          b h)

  abbrev Ends : Session E × Leave → Type 0
  Ends (q, l) = l ≢ no_more_rounds

  Ends-if :
      (c : Bool) (r : Session E) (x : Session E × Leave)
      → (c ≡ false → Ends x)
      → Ends (if c then (r, budget_spent) else x)
  Ends-if true r x h = λ e. cc e
  Ends-if false r x h = h refl

  carry_on-Ends :
      (x : Session E × Verdict) (rest : Session E × Leave)
      → (x.1 ≡ goes_on → Ends rest)
      → Ends (carry_on uc emulate x rest)
  unfolding carry_on
  carry_on-Ends (q, goes_on) rest h = h refl
  carry_on-Ends (q, failed) rest h = λ e. cc e
  carry_on-Ends (q, woken) rest h = λ e. cc e

  -- A budget that is not spent is above 0.
  budget_left :
      (o : Opts) (n : ℕ) → o.run_forever ≡ false → (not o.run_forever && (n == 0)) ≡ false → 0 < n
  budget_left o n e h = let more : (n == 0) ≡ false = ground (arith, e, h) in ground arith

  -- A run with a budget ends, whatever the cores do: a round for each instruction of the budget is
  -- enough for the loop to be left because the budget is spent, a core failed or the power chip woke.
  pub run_loop-ends :
      (n : ℕ) (o : Opts) (r : Session E)
      → IsBounded o
      → r.remaining ≤ n
      → (run_loop uc emulate n o r).1 ≢ no_more_rounds
  unfolding run_loop
  run_loop-ends zero o r b h =
      Ends-if (not o.run_forever && (r.remaining == 0)) r _
        (λ more. absurd (omega (arith, budget_left o r.remaining b.ends more)))
  run_loop-ends (suc n) o r b h = Ends-if (not o.run_forever && (r.remaining == 0)) r _ (λ more.
      carry_on-Ends (play_round uc emulate o r) _ (λ v.
        run_loop-ends n o (play_round uc emulate o r).0 b
          (omega (arith, play_round-Falls o r b (budget_left o r.remaining b.ends more) v))))
