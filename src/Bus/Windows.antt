-- ===== src/Bus/Windows.antt =====
-- The windows of the address map: none hides another.
use nano1g_unicorn_c.Base.{
  ℕ, zero, suc, ◌+◌, ◌-◌, ◌≡◌, Bool, true, false, ◌&&◌, ◌||◌, leb, List, [], ◌∷◌, Option, some,
  none, refl, arith, Core, Bool-cases, inl, inr, ◌↔◌, ap, sym, split_and, ◌∙◌,
}
use nano1g_unicorn_c.State.{State}
use nano1g_unicorn_c.Ram.{ram_read, ram_write}
use nano1g_unicorn_c.Bus.Route.{
  Device, flash, flash_alias, cpuid, mailbox, sysreg_60003000, intc, timer, devcon, cpucon,
  dma_secondary, dma, gpio, cachecon, evp, ppcon, sysreg_70003800, lcd2, i2s, pwm, i2c, serial0,
  serial1, opto, dimmer, eide, usb, memcon, base_of, size_of, is_in, devices, find_window, route,
}
use nano1g_unicorn_c.Bus.Access.{
  count_read, count_write, device_read, device_write, read_routed, answer_read, write_routed,
  answer_write, bus_read, bus_write_core,
}

-- Two windows that do not meet, and one that meets none of a list.
abbrev apart : Device → Device → Bool
apart d e = leb (base_of d + size_of d) (base_of e) || leb (base_of e + size_of e) (base_of d)

unfoldable all_apart : Device → List Device → Bool
all_apart d [] = true
all_apart d (e ∷ es) = apart d e && all_apart d es

apart-is_in :
    (d e : Device) (addr : ℕ) → apart d e ≡ true → is_in d addr ≡ true → is_in e addr ≡ false
apart-is_in d e addr h k = ground arith

-- The windows that are tried before the one numbered `n`, and that one.
unfoldable take_first : ℕ → List Device → List Device
take_first zero ds = []
take_first (suc n) [] = []
take_first (suc n) (d ∷ ds) = d ∷ take_first n ds

unfoldable nth : ℕ → List Device → Option Device
nth n [] = none
nth zero (d ∷ ds) = some d
nth (suc n) (d ∷ ds) = nth n ds

abbrev some_or : Device → Option Device → Device
some_or e none = e
some_or e (some d) = d

find_window-nth :
    (n : ℕ) (ds : List Device) (d : Device) (addr : ℕ)
    → nth n ds ≡ some d
    → all_apart d (take_first n ds) ≡ true
    → is_in d addr ≡ true
    → find_window ds addr ≡ some d
unfolding find_window all_apart nth take_first
find_window-nth n [] d addr g h k = g
find_window-nth zero (e ∷ es) d addr g h k =
    let same : e ≡ d = ap (some_or e) g in rw (same, k) refl
find_window-nth (suc n) (e ∷ es) d addr g h k =
    let (a, b) = split_and (apart d e) (all_apart d (take_first n es)) h in
    rw (apart-is_in d e addr a k) (find_window-nth n es d addr g b k)

-- An address in a device's window is routed to that device.
route-is_in : (d : Device) (addr : ℕ) → is_in d addr ≡ true → route addr ≡ some d
unfolding route all_apart base_of size_of take_first nth
route-is_in flash addr h = find_window-nth 0 devices flash addr refl refl h
route-is_in flash_alias addr h = find_window-nth 1 devices flash_alias addr refl refl h
route-is_in cpuid addr h = find_window-nth 2 devices cpuid addr refl refl h
route-is_in mailbox addr h = find_window-nth 3 devices mailbox addr refl refl h
route-is_in sysreg_60003000 addr h = find_window-nth 4 devices sysreg_60003000 addr refl refl h
route-is_in intc addr h = find_window-nth 5 devices intc addr refl refl h
route-is_in timer addr h = find_window-nth 6 devices timer addr refl refl h
route-is_in devcon addr h = find_window-nth 7 devices devcon addr refl refl h
route-is_in cpucon addr h = find_window-nth 8 devices cpucon addr refl refl h
route-is_in dma_secondary addr h = find_window-nth 9 devices dma_secondary addr refl refl h
route-is_in dma addr h = find_window-nth 10 devices dma addr refl refl h
route-is_in gpio addr h = find_window-nth 11 devices gpio addr refl refl h
route-is_in cachecon addr h = find_window-nth 12 devices cachecon addr refl refl h
route-is_in evp addr h = find_window-nth 13 devices evp addr refl refl h
route-is_in ppcon addr h = find_window-nth 14 devices ppcon addr refl refl h
route-is_in sysreg_70003800 addr h = find_window-nth 15 devices sysreg_70003800 addr refl refl h
route-is_in lcd2 addr h = find_window-nth 16 devices lcd2 addr refl refl h
route-is_in i2s addr h = find_window-nth 17 devices i2s addr refl refl h
route-is_in pwm addr h = find_window-nth 18 devices pwm addr refl refl h
route-is_in i2c addr h = find_window-nth 19 devices i2c addr refl refl h
route-is_in serial0 addr h = find_window-nth 20 devices serial0 addr refl refl h
route-is_in serial1 addr h = find_window-nth 21 devices serial1 addr refl refl h
route-is_in opto addr h = find_window-nth 22 devices opto addr refl refl h
route-is_in dimmer addr h = find_window-nth 23 devices dimmer addr refl refl h
route-is_in eide addr h = find_window-nth 24 devices eide addr refl refl h
route-is_in usb addr h = find_window-nth 25 devices usb addr refl refl h
route-is_in memcon addr h = find_window-nth 26 devices memcon addr refl refl h

find_window-is_in :
    (ds : List Device) (d : Device) (addr : ℕ) → find_window ds addr ≡ some d → is_in d addr ≡ true
unfolding find_window
find_window-is_in [] d addr h = ground (arith, h)
find_window-is_in (e ∷ es) d addr h = elim (Bool-cases (is_in e addr)) [
  | inl k ↦
      let first : find_window (e ∷ es) addr ≡ some e = rw k refl in
      let same : e ≡ d = ap (some_or e) (sym first ∙ h) in rw (sym same) k
  | inr k ↦
      let skipped : find_window (e ∷ es) addr ≡ find_window es addr = rw k refl in
      find_window-is_in es d addr (sym skipped ∙ h)
]

-- An address is routed to a device exactly when it lies in the device's window: no window hides a
-- part of another.
route-iff-is_in : (d : Device) (addr : ℕ) → (route addr ≡ some d) ↔ (is_in d addr ≡ true)
unfolding route
route-iff-is_in d addr = (find_window-is_in devices d addr, route-is_in d addr)

-- Where memory does not answer, an access within a device's window is that device's, at the offset in
-- the window, and the access is counted. This holds for reads and writes of both cores, with any
-- `apply_memmap`, and any value of the memory controller's static variable.
pub bus_reaches_device :
    (apply_memmap : State → State) (d : Device) (s : State) (last : ℕ) (core : Core)
    (addr size value : ℕ)
    → is_in d addr ≡ true
    → ram_read (count_read s) addr size ≡ none
    → ram_write (count_write s) addr size value ≡ none
    → (bus_read s core addr size ≡ device_read d (count_read s) core (addr - base_of d) size)
      × (bus_write_core apply_memmap s last core addr size value
          ≡ device_write apply_memmap d (count_write s) last core (addr - base_of d) size value)
unfolding bus_read bus_write_core
bus_reaches_device apply_memmap d s last core addr size value h r w =
    let t = count_read s in
    let u = count_write s in
    (
      ap (λ o. answer_read o t (read_routed (route addr) t core addr size)) r
          ∙ ap (λ o. read_routed o t core addr size) (route-is_in d addr h),
      ap
            (λ o.
              answer_write o last
                (write_routed apply_memmap (route addr) u last core addr size value))
            w
          ∙ ap (λ o. write_routed apply_memmap o u last core addr size value)
              (route-is_in d addr h),
    )
