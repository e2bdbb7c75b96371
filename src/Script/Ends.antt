-- ===== src/Script/Ends.antt =====
-- A script ends, after the ticks that it waits.
use nano1g_unicorn_c.Base.{
  ℕ, zero, suc, ◌+◌, ◌-◌, ◌≤◌, ◌≡◌, ◌⊎◌, Bool, true, false, ltb, leb, ◌==◌, Array, Bool-cases, inl,
  inr, refl, arith, ap, sym, ◌∙◌, ltb→lt, ltb→le, eq→==,
}
use nano1g_unicorn_c.State.{State}
use nano1g_unicorn_c.Script.{
  Event, wait, wheel, frame, switch, hold, button, Script, play_event, play_events, script_tick,
  script_done,
}

-- The ticks that an event waits, and those of `n` events from a place.
abbrev pub ticks_of : Event → ℕ
ticks_of (wait ticks) = ticks
ticks_of (wheel delta) = 0
ticks_of frame = 0
ticks_of (switch c down) = 0

unfoldable pub waits : Array Event → ℕ → ℕ → ℕ
waits events cursor zero = 0
waits events cursor (suc n) = ticks_of (events cursor) + waits events (cursor + 1) n

-- The ticks that a script still waits.
abbrev pub remaining : Script → ℕ
remaining p = p.wait_left + waits p.events p.cursor (p.count - p.cursor)

abbrev IsDone : Script → Type 0
IsDone p = (p.count ≤ p.cursor) × (p.wait_left ≡ 0)

-- What a round of the loop leaves of a script that does not wait.
abbrev Round : Event → Script → Script → Bool → Type 0
Round e p q goes_on =
    (q.events ≡ p.events)
    × (q.count ≡ p.count)
    × (q.cursor ≡ p.cursor + 1)
    × (((goes_on ≡ true) × (q.wait_left ≡ p.wait_left) × (ticks_of e ≡ 0))
        ⊎ ((goes_on ≡ false) × (q.wait_left + 1 ≡ ticks_of e)))

play_event-Round :
    (e : Event) (p : Script) (s : State) → Round e p (play_event e p s).0.0 (play_event e p s).1
unfolding play_event
play_event-Round (wait ticks) p s = elim (Bool-cases (ltb 0 ticks)) [
  | inl h ↦ rw h (refl, refl, refl, inr (refl, omega (arith, ltb→lt 0 ticks h)))
  | inr h ↦ rw h (refl, refl, refl, inl (refl, refl, omega (arith, ltb→le 0 ticks h)))
]
play_event-Round (wheel delta) p s = (refl, refl, refl, inl (refl, refl, refl))
play_event-Round frame p s = (refl, refl, refl, inl (refl, refl, refl))
play_event-Round (switch hold down) p s = (refl, refl, refl, inl (refl, refl, refl))
play_event-Round (switch (button b) down) p s = (refl, refl, refl, inl (refl, refl, refl))

waits-same :
    (n : ℕ) (p q : Script)
    → q.events ≡ p.events
    → q.cursor ≡ p.cursor + 1
    → waits q.events q.cursor n ≡ waits p.events (p.cursor + 1) n
waits-same n p q a c = ap (λ e. waits e q.cursor n) a ∙ ap (λ k. waits p.events k n) c

-- The loop ends the script, or at an event that waits: then one tick less is left.
play_events-ends :
    (n : ℕ) (p : Script) (s : State)
    → n ≡ p.count - p.cursor
    → p.wait_left ≡ 0
    → IsDone (play_events n p s).0
      ⊎ (suc (remaining (play_events n p s).0) ≡ waits p.events p.cursor n)
unfolding play_events waits
play_events-ends zero p s e w = inl (omega (arith, e), w)
play_events-ends (suc n) p s e w =
    let q = (play_event (p.events p.cursor) p s).0.0 in
    let t = (play_event (p.events p.cursor) p s).0.1 in
    let (a, b, c, d) = play_event-Round (p.events p.cursor) p s in
    let rest = waits-same n p q a c in
    let left : q.count - q.cursor ≡ n = omega (arith, b, c, e) in
    elim d [
      | inl (go, wl, none_here) ↦ rw go (elim (play_events-ends n q t (sym left) (wl ∙ w)) [
        | inl done ↦ inl done
        | inr less ↦ inr (omega (arith, less, rest, none_here))
      ])
      | inr (stop, wl) ↦ rw stop (inr (omega (arith, wl, rest, ap (waits q.events q.cursor) left)))
    ]

script_tick-ends :
    (p : Script) (s : State)
    → IsDone (script_tick p s).0 ⊎ (suc (remaining (script_tick p s).0) ≡ remaining p)
unfolding script_tick
script_tick-ends p s = elim (Bool-cases (ltb 0 p.wait_left)) [
  | inl h ↦ rw h (inr (omega (arith, ltb→lt 0 p.wait_left h)))
  | inr h ↦
      let none_left : p.wait_left ≡ 0 = omega (arith, ltb→le 0 p.wait_left h) in
      rw h (elim (play_events-ends (p.count - p.cursor) p s refl none_left) [
        | inl done ↦ inl done
        | inr less ↦ inr (omega (arith, less, none_left))
      ])
]

-- A done script stays as it is.
script_tick-IsDone : (p : Script) (s : State) → IsDone p → IsDone (script_tick p s).0
unfolding script_tick play_events
script_tick-IsDone p s (a, b) =
    let none_left : ltb 0 p.wait_left ≡ false = ground (arith, b) in
    let no_events : p.count - p.cursor ≡ 0 = omega (arith, a) in rw (none_left, no_events) (a, b)

-- `n` ticks.
unfoldable pub script_ticks : ℕ → Script → State → Script × State
script_ticks zero p s = (p, s)
script_ticks (suc n) p s = let (q, t) = script_tick p s in script_ticks n q t

script_ticks-IsDone : (n : ℕ) (p : Script) (s : State) → IsDone p → IsDone (script_ticks n p s).0
unfolding script_ticks
script_ticks-IsDone zero p s d = d
script_ticks-IsDone (suc n) p s d =
    let (q, t) = script_tick p s in script_ticks-IsDone n q t (script_tick-IsDone p s d)

ends-within :
    (n : ℕ) (p : Script) (s : State) → remaining p ≤ n → IsDone (script_ticks (suc n) p s).0
unfolding script_ticks
ends-within zero p s le = elim (script_tick-ends p s) [
  | inl done ↦ done
  | inr less ↦ absurd (omega (arith, less, le))
]
ends-within (suc n) p s le =
    let (q, t) = script_tick p s in
    elim (script_tick-ends p s) [
      | inl done ↦ script_ticks-IsDone (suc n) q t done
      | inr less ↦ ends-within n q t (omega (arith, less, le))
    ]

-- Every script ends, in every state of the machine: it is done after one tick more than the ticks
-- that it still waits, the sum of its waits from the cursor on and of the wait it is in.
pub script_ticks-done :
    (p : Script) (s : State) → script_done (script_ticks (suc (remaining p)) p s).0 ≡ true
unfolding script_done
script_ticks-done p s =
    let (a, b) = ends-within (remaining p) p s (omega arith) in
    let past : leb (script_ticks (suc (remaining p)) p s).0.count
          (script_ticks (suc (remaining p)) p s).0.cursor
        ≡ true =
      ground (arith, a) in
    let none_left : ((script_ticks (suc (remaining p)) p s).0.wait_left == 0) ≡ true =
      eq→== _ _ b in
    rw (past, none_left) refl
