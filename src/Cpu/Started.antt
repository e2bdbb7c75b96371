-- ===== src/Cpu/Started.antt =====
-- What n1g_cpu_map_memory shows at the start.
use nano1g_unicorn_c.Base.{
  ℕ, ◌+◌, ◌<◌, ◌≡◌, inl, refl, sym, ◌∙◌, ap, arith, Bool, true, false, if◌then◌else◌, Option, some,
  List, ◌∷◌, Core, cpu, cop,
}
use nano1g_unicorn_c.State.{State, low_flash, low_ram}
use nano1g_unicorn_c.Mailbox.{other_core}
use nano1g_unicorn_c.Ram.{
  is_low_ram, sdram_base, sdram_size, sdram_alias_base, fastram_base, fastram_size,
}
use nano1g_unicorn_c.Flash.{flash_size}
use nano1g_unicorn_c.Cpu.{Unicorn, Region, sdram, fastram, flash}
use nano1g_unicorn_c.Cpu.Mapping.{
  flash_base, and_then, mirrors, windows, starts_in_flash, map_one, map_all, map_devices, map_low0,
  map_core, map_memory, with_state,
}
use nano1g_unicorn_c.Cpu.Backing.{IsMapping, Backs, and_then-done, map_one-Shows}
use nano1g_unicorn_c.Cpu.Remap.{IsBacked}
use nano1g_unicorn_c.Cpu.Above.{
  SameLow, SameLow-trans, mirrors-AreAbove, windows-AreAbove, map_one-SameLow, map_all-SameLow,
  map_devices-SameLow,
}

module _ {E : Type 0} (uc : Unicorn E) (view : E → Core → ℕ → Option (Region × ℕ))
    (laws : IsMapping uc view) where
  -- What a core's part does to the SDRAM's addresses from 0 on, from `e` to `f`.
  record IsStarted (s t : State) (e f : E) (core : Core) : Type 0 where
    alias : t.flash_alias_mapped ≡ s.flash_alias_mapped
    options : t.opts ≡ s.opts
    chosen : is_low_ram t.low0_map ≡ true → starts_in_flash s ≡ false
    own :
        starts_in_flash s ≡ false
        → (i : ℕ) → i < sdram_size
        → view f core (flash_base + i) ≡ some (sdram, i)
    kept : (a : ℕ) → a < sdram_size → view f (other_core core) a ≡ view e (other_core core) a

  -- The state that a mapping leaves if it succeeds.
  abbrev noted : State → State → E × Bool → (State × E) × Bool
  noted s t m = ((if m.1 then t else s, m.0), m.1)

  low_cases :
      (b : Bool) (s : State) (e : E) (core : Core)
      → starts_in_flash s ≡ b
      → let in_flash = map_one uc e core flash_base flash_size flash in
        let in_ram = map_one uc e core 0 sdram_size sdram in
        let x =
          if b
          then noted s (record s { low0_map = low_flash }) in_flash
          else noted s (record s { low0_map = low_ram }) in_ram in
        x.1 ≡ true → IsStarted s x.0.0 e x.0.1 core
  low_cases true s e core b done =
      let shows = map_one-Shows uc view laws e core flash_base flash done in
      rw done (record {
        alias = refl;
        options = refl;
        chosen = λ (h : false ≡ true). absurd (cc h);
        own = λ h. absurd (cc (b, h));
        kept = λ a h. shows.other (other_core core) a (inl refl);
      })
  low_cases false s e core b done =
      let shows = map_one-Shows uc view laws e core flash_base sdram done in
      rw done (record {
        alias = refl;
        options = refl;
        chosen = λ h. b;
        own = λ h. shows.own;
        kept = λ a h. shows.other (other_core core) a (inl refl);
      })

  map_low0-IsStarted :
      (s : State) (e : E) (core : Core)
      → (map_low0 uc core (s, e)).1 ≡ true
      → let (t, f) = (map_low0 uc core (s, e)).0 in IsStarted s t e f core
  unfolding map_low0
  map_low0-IsStarted s e core = low_cases (starts_in_flash s) s e core refl

  -- With mappings above before and after.
  around :
      (s t : State) (e f g h : E) (core : Core)
      → SameLow uc view e f
      → IsStarted s t f g core
      → SameLow uc view g h
      → IsStarted s t e h core
  around s t e f g h core p q r = record {
    alias = q.alias;
    options = q.options;
    chosen = q.chosen;
    own = λ b i k. r core (flash_base + i) (omega (arith, k)) ∙ q.own b i k;
    kept = λ a k. r (other_core core) a k ∙ q.kept a k ∙ p (other_core core) a k;
  }

  abbrev rest_of : Core → E → E × Bool
  rest_of core e =
      and_then
        (and_then
          (map_all uc (0x02000000 ∷ 0x04000000 ∷ 0x06000000 ∷ mirrors sdram_alias_base) core e)
          (λ f. map_one uc f core fastram_base fastram_size fastram))
        (map_devices uc windows core)

  rest_of-SameLow :
      (core : Core) (e : E) → (rest_of core e).1 ≡ true → SameLow uc view e (rest_of core e).0
  rest_of-SameLow core e done =
      let aliases : List ℕ = 0x02000000 ∷ 0x04000000 ∷ 0x06000000 ∷ mirrors sdram_alias_base in
      let a = map_all uc aliases core e in
      let b = and_then a (λ f. map_one uc f core fastram_base fastram_size fastram) in
      let (b_done, same_d) = and_then-done b (map_devices uc windows core) done in
      let (a_done, same_b) =
        and_then-done a (λ f. map_one uc f core fastram_base fastram_size fastram) b_done in
      let fast : SameLow uc view a.0 b.0 = rw same_b (
        map_one-SameLow uc view laws a.0 core fastram_base fastram (omega arith) (
          map_one-Shows uc view laws a.0 core fastram_base fastram
            (sym (ap (λ z. z.1) same_b) ∙ b_done))) in
      let ram : SameLow uc view e a.0 =
        map_all-SameLow uc view laws aliases core e
          (
            omega arith,
            (omega arith, (omega arith, mirrors-AreAbove sdram_alias_base (omega arith))),
          )
          a_done in
      rw same_d (
        SameLow-trans uc view e b.0 (map_devices uc windows core b.0).0
          (SameLow-trans uc view e a.0 b.0 ram fast)
          (map_devices-SameLow uc view laws windows core b.0 windows-AreAbove
            (sym (ap (λ z. z.1) same_d) ∙ done)))

  map_core-IsStarted :
      (s : State) (e : E) (core : Core)
      → (map_core uc core (s, e)).1 ≡ true
      → let (t, f) = (map_core uc core (s, e)).0 in IsStarted s t e f core
  unfolding map_core
  map_core-IsStarted s e core done =
      let m = map_all uc (mirrors sdram_base) core e in
      let x = and_then (with_state uc s m) (map_low0 uc core) in
      let (low_done, same) = and_then-done x (λ y. with_state uc y.0 (rest_of core y.1)) done in
      let (mirrors_done, same_low) =
        and_then-done (with_state uc s m) (map_low0 uc core) low_done in
      let started : IsStarted s x.0.0 m.0 x.0.1 core =
        rw same_low (map_low0-IsStarted s m.0 core (sym (ap (λ z. z.1) same_low) ∙ low_done)) in
      rw same (
        around s x.0.0 e m.0 x.0.1 (rest_of core x.0.1).0 core
          (map_all-SameLow uc view laws (mirrors sdram_base) core e
            (mirrors-AreAbove sdram_base (omega arith)) mirrors_done)
          started (rest_of-SameLow core x.0.1 (sym (ap (λ z. z.1) same) ∙ done)))

  shown-own :
      (s t u : State) (e f g : E)
      → IsStarted s t e f cpu
      → IsStarted t u f g cop
      → starts_in_flash s ≡ false
      → starts_in_flash t ≡ false
      → Backs uc view g flash_base sdram
  shown-own s t u e f g p q a b cpu i h = q.kept (flash_base + i) (omega (arith, h)) ∙ p.own a i h
  shown-own s t u e f g p q a b cop i h = q.own b i h

  -- A start before which the flash's alias is not noted, and that succeeds, leaves a state whose
  -- notes of the map are true of the cores.
  pub map_memory-IsBacked :
      (s : State) (e : E)
      → s.flash_alias_mapped ≡ false
      → (map_memory uc s e).1 ≡ true
      → let (t, f) = (map_memory uc s e).0 in IsBacked uc view t f
  unfolding map_memory
  map_memory-IsBacked s e none_noted done =
      let x = map_core uc cpu (s, e) in
      let y = map_core uc cop x.0 in
      let (first, same) = and_then-done x (map_core uc cop) done in
      let p = map_core-IsStarted s e cpu first in
      let q = map_core-IsStarted x.0.0 x.0.1 cop (sym (ap (λ z. z.1) same) ∙ done) in
      rw same (record {
        low = λ h.
            let b : starts_in_flash x.0.0 ≡ false = q.chosen h in
            shown-own s x.0.0 y.0.0 e x.0.1 y.0.1 p q
              (sym (ap (λ o. starts_in_flash (record s { opts = o })) p.options) ∙ b) b;
        alias = λ h. absurd (cc (p.alias, q.alias, none_noted, h));
      })
