-- ===== src/Cpu/Backing.antt =====
-- What the cores' addresses show: the laws of the library's memory map, and map_ram_one and
-- map_flash_one_at under them.
use nano1g_unicorn_c.Base.{
  ℕ, ◌+◌, ◌≤◌, ◌<◌, ◌≡◌, ◌⊎◌, inl, inr, refl, sym, ◌∙◌, ap, Bool, true, false, if_false, Bool-cases,
  Option, some, Core, cpu, cop,
}
use nano1g_unicorn_c.Mailbox.{other_core}
use nano1g_unicorn_c.Ram.{sdram_size, fastram_size}
use nano1g_unicorn_c.Flash.{flash_size}
use nano1g_unicorn_c.Cpu.{Unicorn, Region, sdram, fastram, flash}
use nano1g_unicorn_c.Cpu.Mapping.{flush_tb, map_one, and_then}

abbrev pub region_size : Region → ℕ
region_size sdram = sdram_size
region_size fastram = fastram_size
region_size flash = flash_size

-- An address outside a range, or of the other core.
abbrev pub Elsewhere : Core → ℕ → ℕ → Core → ℕ → Type 0
Elsewhere core base size c a = (c ≡ other_core core) ⊎ ((a < base) ⊎ (base + size ≤ a))

-- What the library promises of its memory map. `view` is the buffer that backs an address of a core,
-- or whose copy does, and the offset in it. A mapping that succeeds shows the buffer in its range,
-- and one that fails changes nothing; memory of the library's own that is mapped and then written with
-- a whole buffer shows that buffer's copy. Nothing else is changed, and flushing changes nothing.
pub record IsMapping {E : Type 0} (uc : Unicorn E) (view : E → Core → ℕ → Option (Region × ℕ))
    : Type 0 where
  pub ptr_own :
      (e : E) (core : Core) (base size : ℕ) (region : Region) (i : ℕ)
      → (uc.map_ptr e core base size region).1 ≡ true
      → i < size
      → view (uc.map_ptr e core base size region).0 core (base + i) ≡ some (region, i)
  pub ptr_failed :
      (e : E) (core : Core) (base size : ℕ) (region : Region) (c : Core) (a : ℕ)
      → (uc.map_ptr e core base size region).1 ≡ false
      → view (uc.map_ptr e core base size region).0 c a ≡ view e c a
  pub ptr_other :
      (e : E) (core : Core) (base size : ℕ) (region : Region) (c : Core) (a : ℕ)
      → Elsewhere core base size c a
      → view (uc.map_ptr e core base size region).0 c a ≡ view e c a
  pub copy_own :
      (e : E) (core : Core) (base : ℕ) (region : Region) (i : ℕ)
      → let (f, mapped) = uc.mem_map e core base (region_size region) in
        let (g, written) = uc.mem_write f core base region in
        mapped ≡ true
        → written ≡ true
        → i < region_size region
        → view g core (base + i) ≡ some (region, i)
  pub map_other :
      (e : E) (core : Core) (base size : ℕ) (c : Core) (a : ℕ)
      → Elsewhere core base size c a
      → view (uc.mem_map e core base size).0 c a ≡ view e c a
  pub copy_other :
      (e : E) (core : Core) (base : ℕ) (region : Region) (c : Core) (a : ℕ)
      → let (f, mapped) = uc.mem_map e core base (region_size region) in
        mapped ≡ true
        → Elsewhere core base (region_size region) c a
        → view (uc.mem_write f core base region).0 c a ≡ view f c a
  pub unmap_other :
      (e : E) (core : Core) (base size : ℕ) (c : Core) (a : ℕ)
      → Elsewhere core base size c a
      → view (uc.unmap e core base size).0 c a ≡ view e c a
  pub mmio_other :
      (e : E) (core : Core) (base size : ℕ) (c : Core) (a : ℕ)
      → Elsewhere core base size c a
      → view (uc.mmio_map e core base size).0 c a ≡ view e c a
  pub flush_same : (e : E) (core c : Core) (a : ℕ) → view (uc.flush e core) c a ≡ view e c a

pub and_then-done {ℓ} :
    {A : Type ℓ} (x : A × Bool) (f : A → A × Bool)
    → (and_then x f).1 ≡ true
    → (x.1 ≡ true) × (and_then x f ≡ f x.0)
and_then-done (a, true) f h = (refl, refl)
and_then-done (a, false) f h = absurd (cc h)

module _ {E : Type 0} (uc : Unicorn E) (view : E → Core → ℕ → Option (Region × ℕ)) where
  -- From `e` to `f`, a range of one core, or of both, comes to show a buffer, and no more changes.
  pub record Shows (e f : E) (core : Core) (base : ℕ) (region : Region) : Type 0 where
    pub own : (i : ℕ) → i < region_size region → view f core (base + i) ≡ some (region, i)
    pub other :
        (c : Core) (a : ℕ) → Elsewhere core base (region_size region) c a → view f c a ≡ view e c a

  pub record ShowsBoth (e f : E) (base : ℕ) (region : Region) : Type 0 where
    pub own : (c : Core) (i : ℕ) → i < region_size region → view f c (base + i) ≡ some (region, i)
    pub other :
        (c : Core) (a : ℕ) → (a < base) ⊎ (base + region_size region ≤ a) → view f c a ≡ view e c a

  both-own :
      (e f g : E) (base : ℕ) (region : Region)
      → Shows e f cpu base region
      → Shows f g cop base region
      → (c : Core) (i : ℕ) → i < region_size region
      → view g c (base + i) ≡ some (region, i)
  both-own e f g base region p q cpu i h = q.other cpu (base + i) (inl refl) ∙ p.own i h
  both-own e f g base region p q cop i h = q.own i h

  Shows-both :
      (e f g : E) (base : ℕ) (region : Region)
      → Shows e f cpu base region
      → Shows f g cop base region
      → ShowsBoth e g base region
  Shows-both e f g base region p q = record {
    own = both-own e f g base region p q;
    other = λ c a h. q.other c a (inr h) ∙ p.other c a (inr h);
  }

  -- A buffer shows in its range on both cores.
  abbrev pub Backs : E → ℕ → Region → Type 0
  Backs e base region =
      (core : Core) (i : ℕ) → i < region_size region → view e core (base + i) ≡ some (region, i)

  module _ (laws : IsMapping uc view) where
    pub map_one-Shows :
        (e : E) (core : Core) (base : ℕ) (region : Region)
        → (map_one uc e core base (region_size region) region).1 ≡ true
        → Shows e (map_one uc e core base (region_size region) region).0 core base region
    unfolding map_one
    map_one-Shows e core base region done =
        let x = uc.map_ptr e core base (region_size region) region in
        let y = uc.mem_map x.0 core base (region_size region) in
        elim (Bool-cases x.1) [
          | inl h ↦ rw h (record {
            own = λ i. laws.ptr_own e core base (region_size region) region i h;
            other = laws.ptr_other e core base (region_size region) region;
          })
          | inr h ↦
              let copied : map_one uc e core base (region_size region) region
                  ≡ and_then y (λ f. uc.mem_write f core base region) =
                if_false x.1 _ _ h in
              let (mapped, same) =
                and_then-done y (λ f. uc.mem_write f core base region)
                  (sym (ap (λ z. z.1) copied) ∙ done) in
              let to = copied ∙ same in
              rw to (record {
                own = λ i.
                    laws.copy_own x.0 core base region i mapped (sym (ap (λ z. z.1) to) ∙ done);
                other = λ c a out.
                    laws.copy_other x.0 core base region c a mapped out
                    ∙ laws.map_other x.0 core base (region_size region) c a out
                    ∙ laws.ptr_failed e core base (region_size region) region c a h;
              })
        ]

    -- The two cores one after the other.
    pub both_cores-ShowsBoth :
        (act : E → Core → E × Bool) (e : E) (base : ℕ) (region : Region)
        → ((f : E) (core : Core) → (act f core).1 ≡ true → Shows f (act f core).0 core base region)
        → let x = and_then (act e cpu) (λ f. act f cop) in x.1 ≡ true → ShowsBoth e x.0 base region
    both_cores-ShowsBoth act e base region one done =
        let (first, same) = and_then-done (act e cpu) (λ f. act f cop) done in
        rw same (
          Shows-both e (act e cpu).0 (act (act e cpu).0 cop).0 base region (one e cpu first)
            (one (act e cpu).0 cop (sym (ap (λ z. z.1) same) ∙ done)))

    pub flush_tb-view : (e : E) (c : Core) (a : ℕ) → view (flush_tb uc e) c a ≡ view e c a
    unfolding flush_tb
    flush_tb-view e c a = laws.flush_same (uc.flush e cpu) cop c a ∙ laws.flush_same e cpu c a

    pub flushed :
        (e f : E) (base : ℕ) (region : Region)
        → ShowsBoth e f base region
        → ShowsBoth e (flush_tb uc f) base region
    flushed e f base region b = record {
      own = λ c i h. flush_tb-view f c (base + i) ∙ b.own c i h;
      other = λ c a h. flush_tb-view f c a ∙ b.other c a h;
    }
