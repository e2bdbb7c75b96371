-- ===== src/Intc/Entry.antt =====
-- The entry of a core into a fast interrupt, which masks the ordinary one of the same tick.
use nano1g_unicorn_c.Base.{
  ℕ, ◌^◌, ◌<◌, true, false, if◌then◌else◌, bit_or, Core, cpu, cop, get, ◌≡◌, ◌≢◌, refl, ◌∙◌, ap,
  arith, Bool-cases, inl, inr,
}
use nano1g_unicorn_c.Word.{
  clear_bits, test_bits, not32, suc-ones, le-ones, bit_or-le-ones, bit_and-le-ones, bit_and-or_self,
  bit_and-subset,
}
use nano1g_unicorn_c.State.{State}
use nano1g_unicorn_c.Mailbox.{other_core}
use nano1g_unicorn_c.Intc.{
  Engine, Reg, cpsr, spsr, lr, pc, wake, enter, raise_fiq, raise_irq, deliver_fiq, deliver_irq,
  intc_tick, irq_pending, fiq_pending,
}

-- What the engine promises of its registers: they hold 32 bits; a read gives what was written; other
-- registers' writes leave CPSR, and a write of the program counter leaves LR; each core has its own;
-- stopping changes none. The engine keeps this of the program counter for even values: an odd one is
-- a switch to Thumb code, which is not modelled.
pub record IsFaithful {E : Type 0} (g : Engine E) : Type 0 where
  pub read_in : (e : E) (core : Core) (r : Reg) → g.reg_read e core r < 2 ^ 32
  pub read_own :
      (e : E) (core : Core) (r : Reg) (v : ℕ)
      → v < 2 ^ 32
      → g.reg_read (g.reg_write e core r v) core r ≡ v
  pub read_cpsr :
      (e : E) (core : Core) (r : Reg) (v : ℕ)
      → r ≢ cpsr
      → g.reg_read (g.reg_write e core r v) core cpsr ≡ g.reg_read e core cpsr
  pub read_lr :
      (e : E) (core : Core) (v : ℕ)
      → g.reg_read (g.reg_write e core pc v) core lr ≡ g.reg_read e core lr
  pub read_other :
      (e : E) (core : Core) (r r' : Reg) (v : ℕ)
      → g.reg_read (g.reg_write e core r v) (other_core core) r' ≡ g.reg_read e (other_core core) r'
  pub read_stop :
      (e : E) (core core' : Core) (r : Reg)
      → g.reg_read (g.stop e core) core' r ≡ g.reg_read e core' r

-- The vector of a fast interrupt.
abbrev pub fiq_vector : State → ℕ
fiq_vector s = if test_bits (s.cachecon 0) 0x10 then s.evp 7 else 0x1c

-- The status word of a core in a fast interrupt: both interrupts masked, the old flags kept.
abbrev pub fiq_cpsr : ℕ → ℕ
fiq_cpsr old = bit_or (clear_bits old 0x3f) 0xd1

fiq_cpsr-lt : (old : ℕ) → old < 2 ^ 32 → fiq_cpsr old < 2 ^ 32
fiq_cpsr-lt old h = omega (
  arith,
  suc-ones 32,
  bit_or-le-ones 32 (clear_bits old 0x3f) 0xd1
      (bit_and-le-ones 32 old (not32 0x3f) (le-ones 32 old h)) (le-ones 32 0xd1 (omega arith)),
)

fiq_cpsr-masks : (old : ℕ) → test_bits (fiq_cpsr old) 0x80 ≡ true
fiq_cpsr-masks old =
    rw (bit_and-subset (fiq_cpsr old) 0xd1 0x80 (bit_and-or_self (clear_bits old 0x3f) 0xd1) refl)
      refl

vector-lt : (s : State) → ((i : ℕ) → s.evp i < 2 ^ 32) → fiq_vector s < 2 ^ 32
vector-lt s small = elim (Bool-cases (test_bits (s.cachecon 0) 0x10)) [
  | inl h ↦ rw h (small 7)
  | inr h ↦ rw h (omega arith)
]

woken : (core : Core) (s : State) → (get (wake s core).cpu core).halted ≡ false
unfolding wake
woken cpu s = refl
woken cop s = refl

still_woken :
    (core c : Core) (s : State)
    → (get s.cpu c).halted ≡ false
    → (get (wake s core).cpu c).halted ≡ false
unfolding wake
still_woken cpu cpu s h = refl
still_woken cpu cop s h = h
still_woken cop cpu s h = h
still_woken cop cop s h = refl

module _ {E : Type 0} (g : Engine E) (f : IsFaithful g) where
  enter_other :
      (s : State) (e : E) (core : Core) (mode vector : ℕ) (r : Reg)
      → g.reg_read (enter g s e core mode vector).1 (other_core core) r
        ≡ g.reg_read e (other_core core) r
  unfolding enter
  enter_other s e core mode vector r =
      f.read_stop _ core (other_core core) r
      ∙ f.read_other _ core pc r _
      ∙ f.read_other _ core lr r _
      ∙ f.read_other _ core spsr r _
      ∙ f.read_other _ core cpsr r _

  fiq_other :
      (core : Core) (m : State × E) (r : Reg)
      → g.reg_read (deliver_fiq g core m).1 (other_core core) r ≡ g.reg_read m.1 (other_core core) r
  unfolding deliver_fiq raise_fiq
  fiq_other core (s, e) r = elim (Bool-cases (fiq_pending s core)) [
    | inr h ↦ rw h refl
    | inl h ↦ elim (Bool-cases (test_bits (g.reg_read e core cpsr) 0x40)) [
      | inl k ↦ rw (h, k) refl
      | inr k ↦ rw (h, k) (enter_other (wake s core) e core 0xd1 (fiq_vector s) r)
    ]
  ]

  irq_other :
      (core : Core) (m : State × E) (r : Reg)
      → g.reg_read (deliver_irq g core m).1 (other_core core) r ≡ g.reg_read m.1 (other_core core) r
  unfolding deliver_irq raise_irq
  irq_other core (s, e) r = elim (Bool-cases (irq_pending s core)) [
    | inr h ↦ rw h refl
    | inl h ↦ elim (Bool-cases (test_bits (g.reg_read e core cpsr) 0x80)) [
      | inl k ↦ rw (h, k) refl
      | inr k ↦ rw (h, k) (enter_other (wake s core) e core 0x92 _ r)
    ]
  ]

  -- A core with the interrupt masked keeps its registers.
  irq_masked :
      (core : Core) (m : State × E)
      → test_bits (g.reg_read m.1 core cpsr) 0x80 ≡ true
      → (deliver_irq g core m).1 ≡ m.1
  unfolding deliver_irq raise_irq
  irq_masked core (s, e) k = elim (Bool-cases (irq_pending s core)) [
    | inr h ↦ rw h refl
    | inl h ↦ rw (h, k) refl
  ]

  -- What the entry leaves in the registers.
  entered :
      (core : Core) (s : State) (e : E)
      → ((i : ℕ) → s.evp i < 2 ^ 32)
      → fiq_pending s core ≡ true
      → test_bits (g.reg_read e core cpsr) 0x40 ≡ false
      → (g.reg_read (deliver_fiq g core (s, e)).1 core pc ≡ fiq_vector s)
        × (g.reg_read (deliver_fiq g core (s, e)).1 core cpsr ≡ fiq_cpsr (g.reg_read e core cpsr))
        × ((get (deliver_fiq g core (s, e)).0.cpu core).halted ≡ false)
  unfolding deliver_fiq raise_fiq enter wake
  entered core s e small h k =
      rw (h, k)
        (
          f.read_stop _ core core pc ∙ f.read_own _ core pc (fiq_vector s) (vector-lt s small),
          f.read_stop _ core core cpsr
              ∙ f.read_cpsr _ core pc _ (ground arith)
              ∙ f.read_cpsr _ core lr _ (ground arith)
              ∙ f.read_cpsr _ core spsr _ (ground arith)
              ∙ f.read_own _ core cpsr _ (fiq_cpsr-lt _ (f.read_in e core cpsr)),
          woken core (wake s core),
        )

  -- A delivery changes no register of the controller and no vector, and halts no core.
  fiq_state :
      (core : Core) (s : State) (e : E)
      → let t = (deliver_fiq g core (s, e)).0 in
        (t.intc ≡ s.intc) × (t.evp ≡ s.evp) × (t.cachecon ≡ s.cachecon)
  unfolding deliver_fiq raise_fiq enter wake
  fiq_state core s e = elim (Bool-cases (fiq_pending s core)) [
    | inr h ↦ rw h (refl, refl, refl)
    | inl h ↦ elim (Bool-cases (test_bits (g.reg_read e core cpsr) 0x40)) [
      | inl k ↦ rw (h, k) (refl, refl, refl)
      | inr k ↦ rw (h, k) (refl, refl, refl)
    ]
  ]

  fiq_awake :
      (core c : Core) (m : State × E)
      → (get m.0.cpu c).halted ≡ false
      → (get (deliver_fiq g core m).0.cpu c).halted ≡ false
  unfolding deliver_fiq raise_fiq enter
  fiq_awake core c (s, e) a = elim (Bool-cases (fiq_pending s core)) [
    | inr h ↦ rw h a
    | inl h ↦ elim (Bool-cases (test_bits (g.reg_read e core cpsr) 0x40)) [
      | inl k ↦ rw (h, k) (still_woken core c s a)
      | inr k ↦ rw (h, k) (still_woken core c (wake s core) (still_woken core c s a))
    ]
  ]

  irq_awake :
      (core c : Core) (m : State × E)
      → (get m.0.cpu c).halted ≡ false
      → (get (deliver_irq g core m).0.cpu c).halted ≡ false
  unfolding deliver_irq raise_irq enter
  irq_awake core c (s, e) a = elim (Bool-cases (irq_pending s core)) [
    | inr h ↦ rw h a
    | inl h ↦ elim (Bool-cases (test_bits (g.reg_read e core cpsr) 0x80)) [
      | inl k ↦ rw (h, k) (still_woken core c s a)
      | inr k ↦ rw (h, k) (still_woken core c (wake s core) (still_woken core c s a))
    ]
  ]

  -- The pending bits and the vector of the other core.
  fiq_pending_ext :
      (s t : State) (core : Core) → t.intc ≡ s.intc → fiq_pending t core ≡ fiq_pending s core
  unfolding fiq_pending
  fiq_pending_ext s t cpu h = rw h refl
  fiq_pending_ext s t cop h = rw h refl

  fiq_vector_ext :
      (s t : State) → t.evp ≡ s.evp → t.cachecon ≡ s.cachecon → fiq_vector t ≡ fiq_vector s
  fiq_vector_ext s t h k = rw (h, k) refl

  -- With an engine that keeps its registers and vectors of 32 bits: after a tick with a fast interrupt
  -- pending for a core that does not mask it, whatever else is pending for this core or the other, the
  -- core stands at the fast vector, with both interrupts masked in a status word that keeps its old
  -- flags, and is not halted.
  pub fiq_first :
      (s : State) (e : E) (core : Core)
      → ((i : ℕ) → s.evp i < 2 ^ 32)
      → fiq_pending s core ≡ true
      → test_bits (g.reg_read e core cpsr) 0x40 ≡ false
      → let (t, e') = intc_tick g s e in
        (g.reg_read e' core pc ≡ fiq_vector s)
        × (g.reg_read e' core cpsr ≡ fiq_cpsr (g.reg_read e core cpsr))
        × ((get t.cpu core).halted ≡ false)
  unfolding intc_tick
  fiq_first s e cpu small h k =
      let m1 = deliver_fiq g cpu (s, e) in
      let m2 = deliver_fiq g cop m1 in
      let m3 = deliver_irq g cpu m2 in
      let (at, word, up) = entered cpu s e small h k in
      let word2 : g.reg_read m2.1 cpu cpsr ≡ fiq_cpsr (g.reg_read e cpu cpsr) =
        fiq_other cop m1 cpsr ∙ word in
      let masked : test_bits (g.reg_read m2.1 cpu cpsr) 0x80 ≡ true =
        rw word2 (fiq_cpsr-masks (g.reg_read e cpu cpsr)) in
      let same : (r : Reg) → g.reg_read (deliver_irq g cop m3).1 cpu r ≡ g.reg_read m1.1 cpu r =
        λ r.
          irq_other cop m3 r
          ∙ ap (λ x. g.reg_read x cpu r) (irq_masked cpu m2 masked)
          ∙ fiq_other cop m1 r in
      (
        same pc ∙ at,
        same cpsr ∙ word,
        irq_awake cop cpu m3 (irq_awake cpu cpu m2 (fiq_awake cop cpu m1 up)),
      )
  fiq_first s e cop small h k =
      let m1 = deliver_fiq g cpu (s, e) in
      let m2 = deliver_fiq g cop m1 in
      let m3 = deliver_irq g cpu m2 in
      let (intc, evp, cachecon) = fiq_state cpu s e in
      let before = fiq_other cpu (s, e) cpsr in
      let (at, word, up) =
        entered cop m1.0 m1.1 (λ i. rw evp (small i)) (fiq_pending_ext s m1.0 cop intc ∙ h)
          (rw before k) in
      let word3 : g.reg_read m3.1 cop cpsr ≡ fiq_cpsr (g.reg_read e cop cpsr) =
        irq_other cpu m2 cpsr ∙ word ∙ ap fiq_cpsr before in
      let masked : test_bits (g.reg_read m3.1 cop cpsr) 0x80 ≡ true =
        rw word3 (fiq_cpsr-masks (g.reg_read e cop cpsr)) in
      let same : (r : Reg) → g.reg_read (deliver_irq g cop m3).1 cop r ≡ g.reg_read m2.1 cop r =
        λ r. ap (λ x. g.reg_read x cop r) (irq_masked cop m3 masked) ∙ irq_other cpu m2 r in
      (
        same pc ∙ at ∙ fiq_vector_ext s m1.0 evp cachecon,
        same cpsr ∙ word ∙ ap fiq_cpsr before,
        irq_awake cop cop m3 (irq_awake cpu cop m2 up),
      )
