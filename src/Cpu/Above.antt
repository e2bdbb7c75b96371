-- ===== src/Cpu/Above.antt =====
-- Mappings above the SDRAM's addresses from 0 on leave these as they are.
use nano1g_unicorn_c.Base.{
  ℕ, ◌≤◌, ◌<◌, ◌≡◌, inl, inr, refl, sym, ◌∙◌, ap, arith, true, Option, List, [], ◌∷◌, Core,
}
use nano1g_unicorn_c.Ram.{sdram_size}
use nano1g_unicorn_c.Cpu.{Unicorn, Region, sdram}
use nano1g_unicorn_c.Cpu.Mapping.{mirrors, windows, map_one, map_all, map_devices}
use nano1g_unicorn_c.Cpu.Backing.{IsMapping, and_then-done, Shows, map_one-Shows, region_size}

-- Ranges above the SDRAM's at 0.
abbrev pub AreAbove : List ℕ → Type 0
AreAbove [] = Unit {0}
AreAbove (addr ∷ addrs) = (sdram_size ≤ addr) × AreAbove addrs

abbrev pub WindowsAbove : List (ℕ × ℕ) → Type 0
WindowsAbove [] = Unit {0}
WindowsAbove ((base, size) ∷ rest) = (sdram_size ≤ base) × WindowsAbove rest

pub mirrors-AreAbove : (base : ℕ) → sdram_size ≤ base → AreAbove (mirrors base)
mirrors-AreAbove base h = (h, (omega (arith, h), (omega (arith, h), (omega (arith, h), tt))))

pub windows-AreAbove : WindowsAbove windows
windows-AreAbove =
    (omega arith, (omega arith, (omega arith, (omega arith, (omega arith, (omega arith, tt))))))

module _ {E : Type 0} (uc : Unicorn E) (view : E → Core → ℕ → Option (Region × ℕ)) where
  -- The addresses of the SDRAM's size from 0 on show what they did.
  abbrev pub SameLow : E → E → Type 0
  SameLow e f = (c : Core) (a : ℕ) → a < sdram_size → view f c a ≡ view e c a

  pub SameLow-trans : (e f g : E) → SameLow e f → SameLow f g → SameLow e g
  SameLow-trans e f g p q c a h = q c a h ∙ p c a h

  module _ (laws : IsMapping uc view) where
    pub map_one-SameLow :
        (e : E) (core : Core) (base : ℕ) (region : Region)
        → sdram_size ≤ base
        → Shows uc view e (map_one uc e core base (region_size region) region).0 core base region
        → SameLow e (map_one uc e core base (region_size region) region).0
    map_one-SameLow e core base region above shows c a h =
        shows.other c a (inr (inl (omega (arith, above, h))))

    pub map_all-SameLow :
        (addrs : List ℕ) (core : Core) (e : E)
        → AreAbove addrs
        → (map_all uc addrs core e).1 ≡ true
        → SameLow e (map_all uc addrs core e).0
    unfolding map_all
    map_all-SameLow [] core e above done = λ c a h. refl
    map_all-SameLow (addr ∷ addrs) core e (above, rest) done =
        let x = map_one uc e core addr sdram_size sdram in
        let (first, same) = and_then-done x (map_all uc addrs core) done in
        rw same (
          SameLow-trans e x.0 (map_all uc addrs core x.0).0
            (map_one-SameLow e core addr sdram above
              (map_one-Shows uc view laws e core addr sdram first))
            (map_all-SameLow addrs core x.0 rest (sym (ap (λ z. z.1) same) ∙ done)))

    pub map_devices-SameLow :
        (ranges : List (ℕ × ℕ)) (core : Core) (e : E)
        → WindowsAbove ranges
        → (map_devices uc ranges core e).1 ≡ true
        → SameLow e (map_devices uc ranges core e).0
    unfolding map_devices
    map_devices-SameLow [] core e above done = λ c a h. refl
    map_devices-SameLow ((base, size) ∷ ranges) core e (above, rest) done =
        let x = uc.mmio_map e core base size in
        let (first, same) = and_then-done x (map_devices uc ranges core) done in
        rw same (
          SameLow-trans e x.0 (map_devices uc ranges core x.0).0
            (λ c a h. laws.mmio_other e core base size c a (inr (inl (omega (arith, above, h)))))
            (map_devices-SameLow ranges core x.0 rest (sym (ap (λ z. z.1) same) ∙ done)))
