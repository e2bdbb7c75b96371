-- ===== src/Sample/File.antt =====
-- A register file for the processor engine, for the tests: a table that keeps what is written.
use native.Mathlib.Nat.{mod-lt, mod-eq_of_lt}
use nano1g_unicorn_c.Base.{
  ℕ, ◌+◌, ◌^◌, ◌<◌, ◌≡◌, ◌≢◌, ◌==◌, if◌then◌else◌, refl, arith, ap, ◌∙◌, Core, cpu, cop, eq→==,
}
use nano1g_unicorn_c.Word.{u32}
use nano1g_unicorn_c.Mailbox.{other_core}
use nano1g_unicorn_c.Intc.{Engine, Reg, cpsr, spsr, lr, pc, sp, gpr}
use nano1g_unicorn_c.Intc.Entry.{IsFaithful}

-- The registers of both cores.
abbrev pub Table : Type 0
Table = Core → Reg → ℕ

abbrev number : Reg → ℕ
number cpsr = 0
number spsr = 1
number lr = 2
number pc = 3
number sp = 4
number (gpr n) = 5 + n

abbrev set_own : (Reg → ℕ) → Reg → ℕ → Reg → ℕ
set_own t r v r' = if number r' == number r then v else t r'

abbrev write : Table → Core → Reg → ℕ → Table
write t cpu r v cpu = set_own (t cpu) r v
write t cpu r v cop = t cop
write t cop r v cpu = t cpu
write t cop r v cop = set_own (t cop) r v

abbrev pub file : Engine Table
file = record { reg_read = λ e core r. u32 (e core r); reg_write = write; stop = λ e core. e }

set_own_self : (t : Reg → ℕ) (r : Reg) (v : ℕ) → set_own t r v r ≡ v
set_own_self t r v = rw (eq→== (number r) (number r) refl) refl

own : (e : Table) (core : Core) (r : Reg) (v : ℕ) → v < 2 ^ 32 → u32 (write e core r v core r) ≡ v
own e cpu r v h = ap (λ t. u32 t) (set_own_self (e cpu) r v) ∙ mod-eq_of_lt h
own e cop r v h = ap (λ t. u32 t) (set_own_self (e cop) r v) ∙ mod-eq_of_lt h

set_own_cpsr : (t : Reg → ℕ) (r : Reg) (v : ℕ) → r ≢ cpsr → set_own t r v cpsr ≡ t cpsr
set_own_cpsr t cpsr v ne = absurd (ne refl)
set_own_cpsr t spsr v ne = refl
set_own_cpsr t lr v ne = refl
set_own_cpsr t pc v ne = refl
set_own_cpsr t sp v ne = refl
set_own_cpsr t (gpr n) v ne = ground arith

keeps :
    (e : Table) (core : Core) (r : Reg) (v : ℕ)
    → r ≢ cpsr
    → u32 (write e core r v core cpsr) ≡ u32 (e core cpsr)
keeps e cpu r v ne = ap (λ t. u32 t) (set_own_cpsr (e cpu) r v ne)
keeps e cop r v ne = ap (λ t. u32 t) (set_own_cpsr (e cop) r v ne)

keeps_lr : (e : Table) (core : Core) (v : ℕ) → u32 (write e core pc v core lr) ≡ u32 (e core lr)
keeps_lr e cpu v = refl
keeps_lr e cop v = refl

other :
    (e : Table) (core : Core) (r r' : Reg) (v : ℕ)
    → u32 (write e core r v (other_core core) r') ≡ u32 (e (other_core core) r')
other e cpu r r' v = refl
other e cop r r' v = refl

pub file-IsFaithful : IsFaithful file
file-IsFaithful = record {
  read_in = λ e core r. mod-lt (e core r) (omega arith);
  read_own = own;
  read_cpsr = keeps;
  read_lr = keeps_lr;
  read_other = other;
  read_stop = λ e core core' r. refl;
}
