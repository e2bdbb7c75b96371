-- ===== src/Cpu/Apply.antt =====
-- What n1g_cpu_apply_memmap leaves of the cores' memory map.
use nano1g_unicorn_c.Base.{
  ℕ, Option, Core, if_false, if_true, ◌≡◌, sym, refl, Bool, true, false, ap, ◌∙◌, if◌then◌else◌,
  cpu, cop,
}
use nano1g_unicorn_c.State.{State}
use nano1g_unicorn_c.Ram.{is_low_ram}
use nano1g_unicorn_c.Flash.{flash_size}
use nano1g_unicorn_c.Cpu.{Unicorn, Region, sdram, flash, current_mmaps}
use nano1g_unicorn_c.Cpu.Backing.{IsMapping, Backs}
use nano1g_unicorn_c.Cpu.Remap.{IsBacked, apply_memmap-IsBacked}
use nano1g_unicorn_c.Cpu.Mapping.{
  flash_base, flash_alias_base, low_size, remap_core, remap_low0, map_one, map_flash_alias,
  want_low_sdram, want_flash_alias, apply_memmap, and_then, when,
}

-- The state notes what the registers ask for.
record IsMarked (s : State) : Type 0 where
  low : want_low_sdram s ≡ true → is_low_ram s.low0_map ≡ true
  alias : want_flash_alias s ≡ true → s.flash_alias_mapped ≡ true

-- What the registers ask for stands in the memory controller alone.
wants-memcon :
    (s t : State)
    → t.memcon ≡ s.memcon
    → (want_low_sdram t ≡ want_low_sdram s) × (want_flash_alias t ≡ want_flash_alias s)
unfolding want_low_sdram want_flash_alias current_mmaps
wants-memcon s t h = (
  ap (λ m. want_low_sdram (record s { memcon = m })) h,
  ap (λ m. want_flash_alias (record s { memcon = m })) h,
)

module _ {E : Type 0} (uc : Unicorn E) where
  -- What the two steps leave.
  abbrev AfterLow : State → (State × E) × Bool → Type 0
  AfterLow s x =
      (x.0.0.memcon ≡ s.memcon)
      × (x.0.0.opts ≡ s.opts)
      × (x.1 ≡ true → is_low_ram x.0.0.low0_map ≡ true)

  abbrev AfterAlias : State → (State × E) × Bool → Type 0
  AfterAlias s x =
      (x.0.0.memcon ≡ s.memcon)
      × (x.0.0.opts ≡ s.opts)
      × (x.0.0.low0_map ≡ s.low0_map)
      × (x.1 ≡ true → x.0.0.flash_alias_mapped ≡ true)

  AfterLow-if :
      (s : State) (b : Bool) (x y : (State × E) × Bool)
      → (b ≡ true → AfterLow s x)
      → AfterLow s y
      → AfterLow s (if b then x else y)
  AfterLow-if s true x y hx hy = hx refl
  AfterLow-if s false x y hx hy = hy

  AfterAlias-if :
      (s : State) (b : Bool) (x y : (State × E) × Bool)
      → (b ≡ true → AfterAlias s x)
      → AfterAlias s y
      → AfterAlias s (if b then x else y)
  AfterAlias-if s true x y hx hy = hx refl
  AfterAlias-if s false x y hx hy = hy

  remap_low0-AfterLow : (s : State) (e : E) → AfterLow s (remap_low0 uc (s, e))
  unfolding remap_low0
  remap_low0-AfterLow s e =
      let r =
        and_then (remap_core uc (low_size s.low0_map) e cpu)
          (λ f. remap_core uc (low_size s.low0_map) f cop) in
      AfterLow-if s (is_low_ram s.low0_map) _ _ (λ h. (refl, refl, λ d. h))
        (AfterLow-if s r.1 _ _ (λ h. (refl, refl, λ d. refl))
          (refl, refl, λ (d : false ≡ true). absurd (cc d)))

  map_flash_alias-AfterAlias : (s : State) (e : E) → AfterAlias s (map_flash_alias uc (s, e))
  unfolding map_flash_alias
  map_flash_alias-AfterAlias s e =
      let r =
        and_then (map_one uc e cpu flash_alias_base flash_size flash)
          (λ f. map_one uc f cop flash_alias_base flash_size flash) in
      AfterAlias-if s s.flash_alias_mapped _ _ (λ h. (refl, refl, refl, λ d. h))
        (AfterAlias-if s r.1 _ _ (λ h. (refl, refl, refl, λ d. refl))
          (refl, refl, refl, λ (d : false ≡ true). absurd (cc d)))

  -- A step that may not be asked for.
  low_step :
      (s : State) (e : E) (b : Bool)
      → let x = when b (remap_low0 uc) (s, e) in
        (x.0.0.memcon ≡ s.memcon)
        × (x.0.0.opts ≡ s.opts)
        × (x.1 ≡ true → b ≡ true → is_low_ram x.0.0.low0_map ≡ true)
  low_step s e true = let (m, o, l) = remap_low0-AfterLow s e in (m, o, λ d h. l d)
  low_step s e false = (refl, refl, λ d (h : false ≡ true). absurd (cc h))

  alias_step :
      (s : State) (e : E) (b : Bool)
      → let x = when b (map_flash_alias uc) (s, e) in
        (x.0.0.memcon ≡ s.memcon)
        × (x.0.0.opts ≡ s.opts)
        × (x.0.0.low0_map ≡ s.low0_map)
        × (x.1 ≡ true → b ≡ true → x.0.0.flash_alias_mapped ≡ true)
  alias_step s e true = let (m, o, k, l) = map_flash_alias-AfterAlias s e in (m, o, k, λ d h. l d)
  alias_step s e false = (refl, refl, refl, λ d (h : false ≡ true). absurd (cc h))

  abbrev both : State → (State × E) × Bool → (State × E) × Bool
  both s x = and_then x (when (want_flash_alias s) (map_flash_alias uc))

  finish :
      (s : State) (x : (State × E) × Bool)
      → x.0.0.memcon ≡ s.memcon
      → x.0.0.opts ≡ s.opts
      → (x.1 ≡ true → want_low_sdram s ≡ true → is_low_ram x.0.0.low0_map ≡ true)
      → (both s x).1 ≡ true
      → IsMarked (both s x).0.0 × ((both s x).0.0.opts ≡ s.opts)
  finish s ((t, e), false) m o l d = absurd (cc d)
  finish s ((t, e), true) m o l d =
      let (m', o', k, a) = alias_step t e (want_flash_alias s) in
      let (wl, wa) = wants-memcon s (both s ((t, e), true)).0.0 (m' ∙ m) in
      (
        record { low = λ w. ap is_low_ram k ∙ l refl (sym wl ∙ w); alias = λ w. a d (sym wa ∙ w) },
        o' ∙ o,
      )

  apply_memmap-IsMarked :
      (s : State) (e : E)
      → s.opts.virtual_memmap ≡ false
      → (apply_memmap uc (s, e)).1 ≡ true
      → IsMarked (apply_memmap uc (s, e)).0.0 × ((apply_memmap uc (s, e)).0.0.opts ≡ s.opts)
  unfolding apply_memmap
  apply_memmap-IsMarked s e v done =
      let (m, o, l) = low_step s e (want_low_sdram s) in
      let plain : apply_memmap uc (s, e) ≡ both s (when (want_low_sdram s) (remap_low0 uc) (s, e)) =
        if_false s.opts.virtual_memmap _ _ v in
      rw plain (
        finish s (when (want_low_sdram s) (remap_low0 uc) (s, e)) m o l
          (sym (ap (λ x. x.1) plain) ∙ done))

  again_low :
      (s : State) (e : E) (b : Bool)
      → (b ≡ true → is_low_ram s.low0_map ≡ true)
      → when b (remap_low0 uc) (s, e) ≡ ((s, e), true)
  unfolding remap_low0
  again_low s e true h = rw (h refl) refl
  again_low s e false h = refl

  again_alias :
      (s : State) (e : E) (b : Bool)
      → (b ≡ true → s.flash_alias_mapped ≡ true)
      → when b (map_flash_alias uc) (s, e) ≡ ((s, e), true)
  unfolding map_flash_alias
  again_alias s e true h = if_true s.flash_alias_mapped _ _ (h refl)
  again_alias s e false h = refl

  applied-again :
      (s : State) (e : E)
      → s.opts.virtual_memmap ≡ false
      → IsMarked s
      → apply_memmap uc (s, e) ≡ ((s, e), true)
  unfolding apply_memmap
  applied-again s e v a =
      if_false s.opts.virtual_memmap _ _ v
      ∙ ap (both s) (again_low s e (want_low_sdram s) a.low)
      ∙ again_alias s e (want_flash_alias s) a.alias

  module _ (view : E → Core → ℕ → Option (Region × ℕ)) where
    -- The cores show what the registers ask for: where reads, writes and fetches of address 0 go to
    -- the SDRAM, the SDRAM's buffer from 0 on, and where reads and fetches of the flash's alias go to
    -- the flash, the flash's buffer from there on.
    pub record IsApplied (s : State) (e : E) : Type 0 where
      pub low : want_low_sdram s ≡ true → Backs uc view e flash_base sdram
      pub alias : want_flash_alias s ≡ true → Backs uc view e flash_alias_base flash

    -- With a library that keeps the laws of its memory map: where the address map is not translated on
    -- the fly, and what the state notes of the map is true of the cores, a call of n1g_cpu_apply_memmap that succeeds leaves both cores with the SDRAM's
    -- buffer, or its copy, in all addresses of its size from 0 on, if the registers send reads, writes
    -- and fetches of address 0 there, and with the flash's in all those from its alias on, if they send
    -- reads and fetches of the alias to the flash. What the state notes is still true, and a second
    -- call changes nothing.
    pub apply_memmap-again :
        (s : State) (e : E)
        → IsMapping uc view
        → IsBacked uc view s e
        → s.opts.virtual_memmap ≡ false
        → (apply_memmap uc (s, e)).1 ≡ true
        → let (t, f) = (apply_memmap uc (s, e)).0 in
          IsApplied t f × IsBacked uc view t f × (apply_memmap uc (t, f) ≡ ((t, f), true))
    apply_memmap-again s e laws backed v done =
        let (a, o) = apply_memmap-IsMarked s e v done in
        let b = apply_memmap-IsBacked uc view laws s e backed done in
        (
          record { low = λ w. b.low (a.low w); alias = λ w. b.alias (a.alias w) },
          b,
          applied-again (apply_memmap uc (s, e)).0.0 (apply_memmap uc (s, e)).0.1
              (ap (λ p. p.virtual_memmap) o ∙ v) a,
        )
