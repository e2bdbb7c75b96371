-- ===== src/Cpu/Remap.antt =====
-- What n1g_cpu_apply_memmap does to what the cores' addresses show.
use nano1g_unicorn_c.Base.{
  ℕ, ◌+◌, ◌≤◌, ◌≡◌, inl, inr, sym, ◌∙◌, ap, refl, arith, Bool, true, false, if◌then◌else◌, Option,
  Core, cpu, cop,
}
use nano1g_unicorn_c.State.{State, LowMap, low_none, low_ram, low_flash}
use nano1g_unicorn_c.Ram.{is_low_ram, sdram_size}
use nano1g_unicorn_c.Flash.{flash_size}
use nano1g_unicorn_c.Cpu.{Unicorn, Region, sdram, flash}
use nano1g_unicorn_c.Cpu.Mapping.{
  flash_base, flash_alias_base, low_size, map_one, remap_core, remap_low0, map_flash_alias,
  and_then, when, want_low_sdram, want_flash_alias, apply_memmap,
}
use nano1g_unicorn_c.Cpu.Backing.{
  IsMapping, Elsewhere, Backs, and_then-done, Shows, map_one-Shows, both_cores-ShowsBoth,
  flush_tb-view, flushed,
}

low_size-le : (m : LowMap) → low_size m ≤ sdram_size
low_size-le low_none = omega arith
low_size-le low_ram = omega arith
low_size-le low_flash = omega arith

module _ {E : Type 0} (uc : Unicorn E) (view : E → Core → ℕ → Option (Region × ℕ)) where
  -- The low map and the flag of the flash's alias do not promise more than the cores show.
  pub record IsBacked (s : State) (e : E) : Type 0 where
    pub low : is_low_ram s.low0_map ≡ true → Backs uc view e flash_base sdram
    pub alias : s.flash_alias_mapped ≡ true → Backs uc view e flash_alias_base flash

  module _ (laws : IsMapping uc view) where
    unmapped :
        (c core : Core) (a old_size : ℕ)
        → old_size ≤ sdram_size
        → Elsewhere core flash_base sdram_size c a
        → Elsewhere core flash_base old_size c a
    unmapped c core a old_size le (inl h) = inl h
    unmapped c core a old_size le (inr (inl h)) = inr (inl h)
    unmapped c core a old_size le (inr (inr h)) = inr (inr (omega (arith, le, h)))

    remap_core-Shows :
        (old_size : ℕ) (e : E) (core : Core)
        → old_size ≤ sdram_size
        → (remap_core uc old_size e core).1 ≡ true
        → Shows uc view e (remap_core uc old_size e core).0 core flash_base sdram
    unfolding remap_core
    remap_core-Shows old_size e core le done =
        let x = uc.unmap e core flash_base old_size in
        let (gone, same) =
          and_then-done x (λ f. map_one uc f core flash_base sdram_size sdram) done in
        let shows =
          map_one-Shows uc view laws x.0 core flash_base sdram (sym (ap (λ z. z.1) same) ∙ done) in
        rw same (record {
          own = shows.own;
          other = λ c a out.
              shows.other c a out
              ∙ laws.unmap_other e core flash_base old_size c a (unmapped c core a old_size le out);
        })

    abbrev KeepsBacked : (State × E) × Bool → Type 0
    KeepsBacked x = x.1 ≡ true → IsBacked x.0.0 x.0.1

    KeepsBacked-if :
        (b : Bool) (x y : (State × E) × Bool)
        → (b ≡ true → KeepsBacked x)
        → (b ≡ false → KeepsBacked y)
        → KeepsBacked (if b then x else y)
    KeepsBacked-if true x y p q = p refl
    KeepsBacked-if false x y p q = q refl

    remap_low0-IsBacked : (s : State) (e : E) → IsBacked s e → KeepsBacked (remap_low0 uc (s, e))
    unfolding remap_low0
    remap_low0-IsBacked s e backed =
        let act : E → Core → E × Bool = λ f core. remap_core uc (low_size s.low0_map) f core in
        let r = and_then (act e cpu) (λ f. act f cop) in
        let b = λ (h : r.1 ≡ true). flushed uc view laws e r.0 flash_base sdram (
          both_cores-ShowsBoth uc view laws act e flash_base sdram
            (λ f core. remap_core-Shows (low_size s.low0_map) f core (low_size-le s.low0_map)) h) in
        KeepsBacked-if (is_low_ram s.low0_map) _ _ (λ h d. backed)
          (λ n.
            KeepsBacked-if r.1 _ _
              (λ h d. record {
                low = λ l. (b h).own;
                alias = λ l c i k.
                    (b h).other c (flash_alias_base + i) (inr (omega arith)) ∙ backed.alias l c i k;
              })
              (λ h (d : false ≡ true). absurd (cc d)))

    map_flash_alias-IsBacked :
        (s : State) (e : E) → IsBacked s e → KeepsBacked (map_flash_alias uc (s, e))
    unfolding map_flash_alias
    map_flash_alias-IsBacked s e backed =
        let act : E → Core → E × Bool =
          λ f core. map_one uc f core flash_alias_base flash_size flash in
        let r = and_then (act e cpu) (λ f. act f cop) in
        let b = λ (h : r.1 ≡ true). flushed uc view laws e r.0 flash_alias_base flash (
          both_cores-ShowsBoth uc view laws act e flash_alias_base flash
            (λ f core. map_one-Shows uc view laws f core flash_alias_base flash) h) in
        KeepsBacked-if s.flash_alias_mapped _ _ (λ h d. backed)
          (λ n.
            KeepsBacked-if r.1 _ _
              (λ h d. record {
                low = λ l c i k.
                    (b h).other c (flash_base + i) (inl (omega (arith, k))) ∙ backed.low l c i k;
                alias = λ l. (b h).own;
              })
              (λ h (d : false ≡ true). absurd (cc d)))

    when-IsBacked :
        (b : Bool) (step : State × E → (State × E) × Bool) (s : State) (e : E)
        → ((t : State) (f : E) → IsBacked t f → KeepsBacked (step (t, f)))
        → IsBacked s e
        → KeepsBacked (when b step (s, e))
    when-IsBacked true step s e keeps backed = keeps s e backed
    when-IsBacked false step s e keeps backed = λ d. backed

    pub apply_memmap-IsBacked :
        (s : State) (e : E) → IsBacked s e → KeepsBacked (apply_memmap uc (s, e))
    unfolding apply_memmap
    apply_memmap-IsBacked s e backed =
        let x = when (want_low_sdram s) (remap_low0 uc) (s, e) in
        KeepsBacked-if s.opts.virtual_memmap _ _
          (λ h d. record {
            low = λ l c i k. flush_tb-view uc view laws e c (flash_base + i) ∙ backed.low l c i k;
            alias = λ l c i k.
                flush_tb-view uc view laws e c (flash_alias_base + i) ∙ backed.alias l c i k;
          })
          (λ h d.
            let (first, same) =
              and_then-done x (when (want_flash_alias s) (map_flash_alias uc)) d in
            rw same (
              when-IsBacked (want_flash_alias s) (map_flash_alias uc) x.0.0 x.0.1
                map_flash_alias-IsBacked
                (when-IsBacked (want_low_sdram s) (remap_low0 uc) s e remap_low0-IsBacked backed
                  first)
                (sym (ap (λ z. z.1) same) ∙ d)))
