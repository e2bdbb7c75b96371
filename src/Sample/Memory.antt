-- ===== src/Sample/Memory.antt =====
-- A processor library whose memory map is a table, for the tests: what each address of a core shows.
use nano1g_unicorn_c.Base.{
  ℕ, ◌+◌, ◌-◌, ◌≤◌, ◌<◌, ◌≡◌, ◌⊎◌, inl, inr, refl, arith, Bool, true, false, ◌&&◌, ltb, leb,
  if◌then◌else◌, if_false, Bool-cases, Option, some, none, Core, cpu, cop,
}
use nano1g_unicorn_c.Mailbox.{other_core}
use nano1g_unicorn_c.Cpu.{Unicorn, Region}
use nano1g_unicorn_c.Cpu.Backing.{IsMapping, Elsewhere, region_size}

abbrev pub Shown : Type 0
Shown = Core → ℕ → Option (Region × ℕ)

abbrev is_same : Core → Core → Bool
is_same cpu cpu = true
is_same cpu cop = false
is_same cop cpu = false
is_same cop cop = true

-- A range of a core, with what its addresses show by their offset.
abbrev put_range : Shown → Core → ℕ → ℕ → (ℕ → Option (Region × ℕ)) → Shown
put_range e core base size what c a =
    if is_same core c && (leb base a && ltb a (base + size)) then what (a - base) else e c a

abbrev show_region : Region → ℕ → Option (Region × ℕ)
show_region region i = some (region, i)

abbrev show_none : ℕ → Option (Region × ℕ)
show_none i = none

-- The buffers cannot be mapped themselves from 0x20000000 on, so that copies of them are made there.
abbrev pub memory : Unicorn Shown
memory = record {
  regs = record { reg_read = λ e core r. 0; reg_write = λ e core r value. e; stop = λ e core. e };
  mem_read = λ e core addr. none;
  map_ptr = λ e core addr size region.
      if ltb addr 0x20000000
      then (put_range e core addr size (show_region region), true)
      else (e, false);
  mem_map = λ e core addr size. (put_range e core addr size show_none, true);
  mem_write =
      λ e core addr region. (put_range e core addr (region_size region) (show_region region), true);
  unmap = λ e core addr size. (put_range e core addr size show_none, true);
  mmio_map = λ e core base size. (e, true);
  flush = λ e core. e;
}

abbrev pub shown : Shown → Core → ℕ → Option (Region × ℕ)
shown e = e

put_range-own :
    (e : Shown) (core : Core) (base size : ℕ) (what : ℕ → Option (Region × ℕ)) (i : ℕ)
    → i < size
    → put_range e core base size what core (base + i) ≡ what i
put_range-own e cpu base size what i h = rw (within, back) refl
  where
    within : (leb base (base + i) && ltb (base + i) (base + size)) ≡ true
    within = ground (arith, h)

    back : base + i - base ≡ i
    back = omega arith
put_range-own e cop base size what i h = rw (within, back) refl
  where
    within : (leb base (base + i) && ltb (base + i) (base + size)) ≡ true
    within = ground (arith, h)

    back : base + i - base ≡ i
    back = omega arith

is_same-other : (core : Core) → is_same core (other_core core) ≡ false
is_same-other cpu = refl
is_same-other cop = refl

outside :
    (b : Bool) (base size a : ℕ)
    → (a < base) ⊎ (base + size ≤ a)
    → (b && (leb base a && ltb a (base + size))) ≡ false
outside true base size a (inl h) = ground (arith, h)
outside true base size a (inr h) = ground (arith, h)
outside false base size a h = refl

put_range-other :
    (e : Shown) (core : Core) (base size : ℕ) (what : ℕ → Option (Region × ℕ)) (c : Core) (a : ℕ)
    → Elsewhere core base size c a
    → put_range e core base size what c a ≡ e c a
put_range-other e core base size what c a (inl h) = rw (h, is_same-other core) refl
put_range-other e core base size what c a (inr h) =
    if_false (is_same core c && (leb base a && ltb a (base + size))) _ _
      (outside (is_same core c) base size a h)

ptr_own :
    (e : Shown) (core : Core) (base size : ℕ) (region : Region) (i : ℕ)
    → (memory.map_ptr e core base size region).1 ≡ true
    → i < size
    → (memory.map_ptr e core base size region).0 core (base + i) ≡ some (region, i)
ptr_own e core base size region i h k = elim (Bool-cases (ltb base 0x20000000)) [
  | inl low ↦ rw low (put_range-own e core base size (show_region region) i k)
  | inr high ↦ absurd (cc (h, high))
]

ptr_failed :
    (e : Shown) (core : Core) (base size : ℕ) (region : Region) (c : Core) (a : ℕ)
    → (memory.map_ptr e core base size region).1 ≡ false
    → (memory.map_ptr e core base size region).0 c a ≡ e c a
ptr_failed e core base size region c a h = elim (Bool-cases (ltb base 0x20000000)) [
  | inl low ↦ absurd (cc (h, low))
  | inr high ↦ rw high refl
]

ptr_other :
    (e : Shown) (core : Core) (base size : ℕ) (region : Region) (c : Core) (a : ℕ)
    → Elsewhere core base size c a
    → (memory.map_ptr e core base size region).0 c a ≡ e c a
ptr_other e core base size region c a h = elim (Bool-cases (ltb base 0x20000000)) [
  | inl low ↦ rw low (put_range-other e core base size (show_region region) c a h)
  | inr high ↦ rw high refl
]

pub memory-IsMapping : IsMapping memory shown
memory-IsMapping = record {
  ptr_own = ptr_own;
  ptr_failed = ptr_failed;
  ptr_other = ptr_other;
  copy_own = λ e core base region i h k.
      put_range-own (put_range e core base (region_size region) show_none) core base
        (region_size region) (show_region region) i;
  map_other = λ e core base size. put_range-other e core base size show_none;
  copy_other = λ e core base region c a h.
      put_range-other (put_range e core base (region_size region) show_none) core base
        (region_size region) (show_region region) c a;
  unmap_other = λ e core base size. put_range-other e core base size show_none;
  mmio_other = λ e core base size c a h. refl;
  flush_same = λ e core c a. refl;
}
