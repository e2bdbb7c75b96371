-- ===== src/Gpio/Pending.antt =====
-- The ports' interrupt: it shows whether an enabled pin has changed.
use nano1g_unicorn_c.Base.{
  ℕ, zero, suc, ◌+◌, ◌-◌, ◌*◌, ◌/◌, ◌%◌, ◌^◌, ◌≤◌, ◌<◌, ◌≡◌, ◌≢◌, ◌⊎◌, Bool, true, false, not, ◌&&◌,
  ◌||◌, leb, ◌==◌, if◌then◌else◌, bit_and, bit_or, Array, store, store_ne, Bool-cases, inl, inr,
  refl, arith, ap, ap₂, sym, ◌∙◌,
}
use nano1g_unicorn_c.Word.{
  clear_bits, test_bits, align4, byte_shift, shl32, mask_for_size, bit_and-low_seven, bit_and_step,
}
use nano1g_unicorn_c.State.{State}
use nano1g_unicorn_c.Irq.{Shows, drive_hi-Shows}
use nano1g_unicorn_c.Backlight.{backlight_gpio_write}
use nano1g_unicorn_c.Gpio.{
  is_input_value_reg, is_interrupt_status_reg, is_interrupt_enable_reg, is_interrupt_level_reg,
  is_interrupt_clear_reg, port_pending, group_pending, gpio_irq_sync, gpio_apply, gpio_write,
}

-- The interrupt line is right.
abbrev pub ShowsPins : State → Type 0
ShowsPins s = Shows s.intc.hi_cpu_status s.intc.hi_cop_status 0x01 (group_pending s.gpio 3)

sync-ShowsPins : (s : State) → ShowsPins (gpio_irq_sync s)
unfolding gpio_irq_sync
sync-ShowsPins s = drive_hi-Shows (group_pending s.gpio 3) 0x01 s.intc (omega arith) refl

-- A place in the array that is neither a status nor an enable register of the ports below `port`.
abbrev IsOther : ℕ → ℕ → Type 0
IsOther i base = (p : ℕ) → p < 4 → (i ≢ (base + 0x40 + p * 4) / 4) × (i ≢ (base + 0x50 + p * 4) / 4)

port_pending-store :
    (regs : Array ℕ) (i v base port : ℕ)
    → port ≤ 4
    → IsOther i base
    → port_pending (store regs i v) base port ≡ port_pending regs base port
unfolding port_pending
port_pending-store regs i v base zero le other = refl
port_pending-store regs i v base (suc port) le other =
    let (a, b) = other port (omega arith) in
    ap₂ (λ x y. x || y) (port_pending-store regs i v base port (omega arith) other)
      (ap₂ test_bits (store_ne regs i ((base + 0x40 + port * 4) / 4) v (λ e. a (sym e)))
        (store_ne regs i ((base + 0x50 + port * 4) / 4) v (λ e. b (sym e))))

group_pending-store :
    (regs : Array ℕ) (i v group : ℕ)
    → ((g : ℕ) → g < group → IsOther i (g * 0x80))
    → group_pending (store regs i v) group ≡ group_pending regs group
unfolding group_pending
group_pending-store regs i v zero other = refl
group_pending-store regs i v (suc group) other =
    ap₂ (λ x y. x || y) (group_pending-store regs i v group (λ g lt. other g (omega arith)))
      (port_pending-store regs i v (group * 0x80) 4 (omega arith) (other group (omega arith)))

outside :
    (x first : ℕ) → (leb first x && leb x (first + 0x0c)) ≡ false → (x < first) ⊎ (first + 0x0c < x)
outside x first h = ground arith

-- A register that is of neither kind.
module _ (aligned : ℕ) (status : is_interrupt_status_reg aligned ≡ false)
    (enable : is_interrupt_enable_reg aligned ≡ false) (whole : aligned % 4 ≡ 0) where
  aligned-IsOther : (g : ℕ) → IsOther (aligned / 4) (g * 0x80)
  unfolding is_interrupt_status_reg is_interrupt_enable_reg
  aligned-IsOther g p lt =
      let group = bit_and-low_seven aligned in
      let a = outside (bit_and aligned 0x7f) 0x40 status in
      let b = outside (bit_and aligned 0x7f) 0x50 enable in
      (λ e. omega (arith, group, a, e, whole, lt), λ e. omega (arith, group, b, e, whole, lt))

align4-whole : (offset : ℕ) → align4 offset % 4 ≡ 0
align4-whole offset =
    omega (arith, bit_and_step offset 0xfffffffc, bit_and_step (offset / 2) 0x7ffffffe)

-- The registers after a write, and the light that hangs on a pin.
light-gpio : (s : State) (offset mask : ℕ) → (backlight_gpio_write s offset mask).gpio ≡ s.gpio
unfolding backlight_gpio_write
light-gpio s offset mask = elim (Bool-cases (not (offset == 0x12c) || not (test_bits mask 0x80))) [
  | inl h ↦ rw h refl
  | inr h ↦ rw h refl
]

light-intc : (s : State) (offset mask : ℕ) → (backlight_gpio_write s offset mask).intc ≡ s.intc
unfolding backlight_gpio_write
light-intc s offset mask = elim (Bool-cases (not (offset == 0x12c) || not (test_bits mask 0x80))) [
  | inl h ↦ rw h refl
  | inr h ↦ rw h refl
]

moved-ShowsPins :
    (s t : State)
    → t.intc ≡ s.intc
    → group_pending t.gpio 3 ≡ group_pending s.gpio 3
    → ShowsPins s
    → ShowsPins t
moved-ShowsPins s t e g (a, b) = (
  ap (λ n. test_bits n.hi_cpu_status 0x01) e ∙ a ∙ sym g,
  ap (λ n. test_bits n.hi_cop_status 0x01) e ∙ b ∙ sym g,
)

none_of : (a b c : Bool) → (a || b || c) ≡ false → (a ≡ false) × (c ≡ false)
none_of a b c h = ground arith

apply-ShowsPins :
    (s : State) (offset mask bits : ℕ)
    → is_interrupt_status_reg (align4 offset) ≡ false
    → ShowsPins s
    → ShowsPins (gpio_apply s (align4 offset) mask bits)
unfolding gpio_apply
apply-ShowsPins s offset mask bits status v =
    let aligned = align4 offset in
    let reg = bit_or (clear_bits (s.gpio (aligned / 4)) mask) (bit_and bits mask) in
    let set = record s { gpio = store s.gpio (aligned / 4) reg } in
    let t = backlight_gpio_write set aligned mask in
    let enables = is_interrupt_enable_reg aligned in
    let clears = is_interrupt_clear_reg aligned in
    elim (Bool-cases (enables || is_interrupt_level_reg aligned || clears)) [
      | inl h ↦ rw h (sync-ShowsPins _)
      | inr h ↦
          let (e, c) = none_of enables (is_interrupt_level_reg aligned) clears h in
          rw (h, c)
            (moved-ShowsPins s t (light-intc set aligned mask)
              (ap (λ regs. group_pending regs 3) (light-gpio set aligned mask)
                ∙ group_pending-store s.gpio (aligned / 4) reg 3
                    (λ g lt. aligned-IsOther aligned status e (align4-whole offset) g))
              v)
    ]

second_of : (a b : Bool) → (a || b) ≡ false → b ≡ false
second_of a b h = ground arith

if-ShowsPins :
    (b : Bool) (s t : State)
    → ShowsPins s
    → (b ≡ false → ShowsPins t)
    → ShowsPins (if b then s else t)
if-ShowsPins true s t v w = v
if-ShowsPins false s t v w = w refl

-- With the ports' interrupt line right, a write of any value at any offset of the port registers
-- leaves it right: it is raised in both cores' words exactly when an enabled pin's change is waiting.
pub gpio_write-ShowsPins :
    (s : State) (offset size value : ℕ) → ShowsPins s → ShowsPins (gpio_write s offset size value)
unfolding gpio_write
gpio_write-ShowsPins s offset size value v =
    let target = offset - 0x800 in
    let by_bits = leb 0x800 offset in
    let place = if by_bits then target else offset in
    let low =
      gpio_apply s (align4 place) (shl32 (bit_and (value / 2 ^ 8) 0xff) (byte_shift target))
        (shl32 (bit_and value 0xff) (byte_shift target)) in
    let all =
      gpio_apply s (align4 place) (shl32 (mask_for_size size) (byte_shift offset))
        (shl32 (bit_and value (mask_for_size size)) (byte_shift offset)) in
    let input = is_input_value_reg (align4 place) in
    let status = is_interrupt_status_reg (align4 place) in
    let written = if by_bits then low else all in
    let allowed = if input || status then s else written in
    if-ShowsPins (leb 0xa00 offset) s allowed v (λ _.
      if-ShowsPins (input || status) s written v (λ k.
        let no_status = second_of input status k in
        if-ShowsPins by_bits low all (apply-ShowsPins s place _ _ no_status v)
          (λ _. apply-ShowsPins s place _ _ no_status v)))
