-- ===== src/Firmware/Errors.antt =====
-- What a loader that fails leaves.
use nano1g_unicorn_c.Base.{
  Buffer, ℕ, zero, suc, ◌+◌, ◌-◌, Bool, true, false, not, ◌&&◌, ◌||◌, ltb, ◌==◌, if◌then◌else◌, ◌≡◌,
  refl, ◌∙◌, Option, some, none, inl, inr, ◌⊎◌,
}
use nano1g_unicorn_c.State.{State}
use nano1g_unicorn_c.Ram.{Pointer, ram_ptr}
use nano1g_unicorn_c.Flash.{flash_size}
use nano1g_unicorn_c.Firmware.{
  rd32, is_osos, place, when_done, or_load, load_osos, place_payload, load_entries,
  load_wrapped_firmware, load_ipod_firmware, load_firmware, load_at, has_magic, search_image,
  load_from_image, load_firmware_from_disk, RomFile, no_path, unreadable, readable, load_flash_rom,
  wants_full_rom,
}

-- A result that is a failure leaves the machine.
abbrev pub Leaves : State → State × Bool → Type 0
Leaves s (t, done) = done ≡ false → t ≡ s

Leaves-self : (s : State) (done : Bool) → Leaves s (s, done)
Leaves-self s done h = refl

Leaves-done : (s t : State) → Leaves s (t, true)
Leaves-done s t h = absurd (cc)

place-Leaves :
    (p : Option Pointer) (s : State) (src : ℕ → ℕ) (from n : ℕ) → Leaves s (place p s src from n)
place-Leaves none s src from n h = refl
place-Leaves (some p) s src from n h = absurd (cc)

Leaves-when_done :
    (s : State) (x : State × Bool) (f : State → State) → Leaves s x → Leaves s (when_done x f)
Leaves-when_done s (t, true) f hx h = absurd (cc)
Leaves-when_done s (t, false) f hx h = hx refl

Leaves-if :
    (s : State) (b : Bool) (x y : State × Bool)
    → Leaves s x
    → Leaves s y
    → Leaves s (if b then x else y)
Leaves-if s true x y hx hy = hx
Leaves-if s false x y hx hy = hy

Leaves-or_load :
    (s : State) (x : State × Bool) (next : State → State × Bool)
    → Leaves s x
    → ((t : State) → Leaves t (next t))
    → Leaves s (or_load x next)
Leaves-or_load s (t, true) next hx hn h = absurd (cc)
Leaves-or_load s (t, false) next hx hn h = hn t h ∙ hx refl

load_osos-Leaves : (s : State) (fw : Buffer) (d : ℕ) → Leaves s (load_osos s fw d)
unfolding load_osos place_payload
load_osos-Leaves s fw d =
    Leaves-if s _ _ _ (Leaves-self s false)
      (Leaves-when_done s _ _ (place-Leaves (ram_ptr s _ _) s fw.bytes _ _))

load_entries-Leaves : (n : ℕ) (s : State) (fw : Buffer) (d : ℕ) → Leaves s (load_entries n s fw d)
unfolding load_entries
load_entries-Leaves zero s fw d = Leaves-self s false
load_entries-Leaves (suc n) s fw d = Leaves-if s (ltb fw.size (d + 40)) _ _ (Leaves-self s false) (
    Leaves-if s (rd32 fw.bytes d == 0) _ _ (Leaves-self s false) (
      Leaves-if s (is_osos fw.bytes d) _ _ (load_osos-Leaves s fw d)
        (load_entries-Leaves n s fw (d + 40))))

load_wrapped_firmware-Leaves : (s : State) (fw : Buffer) → Leaves s (load_wrapped_firmware s fw)
unfolding load_wrapped_firmware
load_wrapped_firmware-Leaves s fw =
    Leaves-if s _ _ _ (load_entries-Leaves fw.size s fw _) (Leaves-self s false)

load_ipod_firmware-Leaves : (s : State) (fw : Buffer) → Leaves s (load_ipod_firmware s fw)
unfolding load_ipod_firmware
load_ipod_firmware-Leaves s fw =
    Leaves-if s _ _ _ (Leaves-self s false)
      (Leaves-when_done s _ _ (place-Leaves (ram_ptr s _ _) s fw.bytes 8 _))

load_firmware-Leaves : (s : State) (file : Option Buffer) → Leaves s (load_firmware s file)
unfolding load_firmware
load_firmware-Leaves s none = Leaves-self s false
load_firmware-Leaves s (some fw) =
    Leaves-or_load s _ _
      (Leaves-or_load s _ _ (load_wrapped_firmware-Leaves s fw)
        (λ t. load_ipod_firmware-Leaves t fw))
      (λ t. place-Leaves (ram_ptr t t.opts.load_addr fw.size) t fw.bytes 0 fw.size)

load_at-Leaves : (s : State) (disk : Buffer) (pos : ℕ) → Leaves s (load_at s disk pos)
unfolding load_at
load_at-Leaves s disk pos =
    let dir_off = rd32 disk.bytes (pos + 4) in
    let start = pos - 0x100 in
    Leaves-if s (not (has_magic disk.bytes pos)) _ _ (Leaves-self s false) (
      Leaves-if s (ltb 0x100000 dir_off || ltb disk.size (start + dir_off + 0x228)) _ _
        (Leaves-self s false)
        (Leaves-if s (not (is_osos disk.bytes (start + dir_off + 0x200))) _ _ (Leaves-self s false)
          (load_wrapped_firmware-Leaves s _)))

search_image-Leaves :
    (n : ℕ) (s : State) (disk : Buffer) (pos : ℕ) → Leaves s (search_image n s disk pos)
unfolding search_image
search_image-Leaves zero s disk pos = Leaves-self s false
search_image-Leaves (suc n) s disk pos =
    Leaves-if s _ _ _
      (Leaves-or_load s _ _ (load_at-Leaves s disk pos)
        (λ t. search_image-Leaves n t disk (pos + 4)))
      (Leaves-self s false)

load_from_image-Leaves : (image : Option (ℕ → ℕ)) (s : State) → Leaves s (load_from_image image s)
unfolding load_from_image
load_from_image-Leaves none s = Leaves-self s false
load_from_image-Leaves (some image) s =
    Leaves-if s _ _ _ (Leaves-self s false) (search_image-Leaves s.disk.size s _ 0x100)

load_firmware_from_disk-Leaves : (s : State) → Leaves s (load_firmware_from_disk s)
unfolding load_firmware_from_disk
load_firmware_from_disk-Leaves s = load_from_image-Leaves s.disk.image s

load_flash_rom-Leaves : (s : State) (file : RomFile) → Leaves s (load_flash_rom s file)
unfolding load_flash_rom
load_flash_rom-Leaves s no_path h = refl
load_flash_rom-Leaves s unreadable h = refl
load_flash_rom-Leaves s (readable rom) h =
    let wrong = wants_full_rom s.opts.profile s.opts.boot_mode && not (rom.size == flash_size) in
    Leaves-if s wrong _ _ (Leaves-self s false)
      (Leaves-if s (ltb flash_size rom.size) _ _ (Leaves-self s false) (Leaves-done s _)) h

either_outcome : (s : State) (x : State × Bool) → Leaves s x → (x.1 ≡ true) ⊎ (x.0 ≡ s)
either_outcome s (t, true) h = inl refl
either_outcome s (t, false) h = inr (h refl)

-- A load succeeds or leaves the machine as it was: of a firmware file, whatever was read of it; of
-- the firmware on the disk; and of a flash ROM.
pub failed_load :
    (s : State) (file : Option Buffer) (rom : RomFile)
    → (((load_firmware s file).1 ≡ true) ⊎ ((load_firmware s file).0 ≡ s))
      × (((load_firmware_from_disk s).1 ≡ true) ⊎ ((load_firmware_from_disk s).0 ≡ s))
      × (((load_flash_rom s rom).1 ≡ true) ⊎ ((load_flash_rom s rom).0 ≡ s))
failed_load s file rom = (
  either_outcome s (load_firmware s file) (load_firmware-Leaves s file),
  either_outcome s (load_firmware_from_disk s) (load_firmware_from_disk-Leaves s),
  either_outcome s (load_flash_rom s rom) (load_flash_rom-Leaves s rom),
)
