-- ===== src/Firmware/Inside.antt =====
-- What the loaders read of a buffer: its bytes below its size.
use nano1g_unicorn_c.Base.{
  copy_bytes, Buffer, ℕ, zero, suc, ◌+◌, ◌-◌, ◌≤◌, ◌<◌, true, ◌||◌, ltb, leb, ◌≡◌, refl, sym, ◌∙◌,
  ap, ap₂, fun_ext, arith, Option, some, none, Array, Bool-cases, inl, inr, ltb→le, leb→le, leb→lt,
  split_and,
}
use nano1g_unicorn_c.State.{State}
use nano1g_unicorn_c.Ram.{Pointer, into_sdram, into_fastram, ram_ptr}
use nano1g_unicorn_c.Firmware.{
  rd32, is_osos, from_byte, place, or_load, load_osos, place_payload, load_entries,
  looks_like_wrapped, load_wrapped_firmware, load_ipod_firmware, load_firmware, load_at,
  search_image, load_from_image,
}

-- Two memories that have the same first `n` bytes.
abbrev pub Agree : ℕ → Array ℕ → Array ℕ → Type 0
Agree n a b = (i : ℕ) → i < n → a i ≡ b i

module _ (n : ℕ) (a b : Array ℕ) (same : Agree n a b) where
  rd32-Agree : (off : ℕ) → off + 4 ≤ n → rd32 a off ≡ rd32 b off
  unfolding rd32
  rd32-Agree off h =
      rw
        (
          same off (omega arith),
          same (off + 1) (omega arith),
          same (off + 2) (omega arith),
          same (off + 3) (omega arith),
        )
        refl

  is_osos-Agree : (off : ℕ) → off + 8 ≤ n → is_osos a off ≡ is_osos b off
  unfolding is_osos
  is_osos-Agree off h =
      rw
        (
          same (off + 4) (omega arith),
          same (off + 5) (omega arith),
          same (off + 6) (omega arith),
          same (off + 7) (omega arith),
        )
        refl

  copy_bytes-Agree :
      (dst : Array ℕ) (off from k : ℕ)
      → from + k ≤ n
      → copy_bytes dst off a from k ≡ copy_bytes dst off b from k
  copy_bytes-Agree dst off from k h = fun_ext (λ j. at j)
    where
      at : (j : ℕ) → copy_bytes dst off a from k j ≡ copy_bytes dst off b from k j
      at j = ground (arith, same (from + (j - off)))

  place-Agree :
      (p : Option Pointer) (s : State) (from k : ℕ)
      → from + k ≤ n
      → place p s a from k ≡ place p s b from k
  place-Agree none s from k h = refl
  place-Agree (some (into_sdram off)) s from k h =
      ap (λ m. (record s { ram = record s.ram { sdram = m } }, true))
        (copy_bytes-Agree s.ram.sdram off from k h)
  place-Agree (some (into_fastram off)) s from k h =
      ap (λ m. (record s { ram = record s.ram { fastram = m } }, true))
        (copy_bytes-Agree s.ram.fastram off from k h)

abbrev pub buffer : Array ℕ → ℕ → Buffer
buffer a n = record { bytes = a; size = n }

is_long : (fw : Buffer) → looks_like_wrapped fw ≡ true → 0x4200 ≤ fw.size
unfolding looks_like_wrapped
is_long fw h = leb→le 0x4200 fw.size (split_and _ _ h).0

module _ (n : ℕ) (a b : Array ℕ) (same : Agree n a b) where
  place_payload-Agree :
      (s : State) (dev_off length addr entry : ℕ)
      → place_payload s (buffer a n) dev_off length addr entry
        ≡ place_payload s (buffer b n) dev_off length addr entry
  unfolding place_payload
  place_payload-Agree s dev_off length addr entry =
      elim (Bool-cases (ltb n (dev_off + 0x200 + length))) [
        | inl h ↦ rw h refl
        | inr h ↦
            rw
              (
                h,
                place-Agree n a b same (ram_ptr s addr length) s (dev_off + 0x200) length
                    (ltb→le n (dev_off + 0x200 + length) h),
              )
              refl
      ]

  load_osos-Agree :
      (s : State) (d : ℕ) → d + 40 ≤ n → load_osos s (buffer a n) d ≡ load_osos s (buffer b n) d
  unfolding load_osos
  load_osos-Agree s d h =
      rw
        (
          rd32-Agree n a b same (d + 12) (omega arith),
          rd32-Agree n a b same (d + 16) (omega arith),
          rd32-Agree n a b same (d + 20) (omega arith),
          rd32-Agree n a b same (d + 24) (omega arith),
        )
        (place_payload-Agree s (rd32 b (d + 12)) (rd32 b (d + 16)) (rd32 b (d + 20))
          (rd32 b (d + 24)))

  load_entries-Agree :
      (k : ℕ) (s : State) (d : ℕ)
      → load_entries k s (buffer a n) d ≡ load_entries k s (buffer b n) d
  unfolding load_entries
  load_entries-Agree zero s d = refl
  load_entries-Agree (suc k) s d = elim (Bool-cases (ltb n (d + 40))) [
    | inl h ↦ rw h refl
    | inr h ↦
        let inside : d + 40 ≤ n = ltb→le n (d + 40) h in
        rw
          (
            h,
            rd32-Agree n a b same d (omega arith),
            is_osos-Agree n a b same d (omega arith),
            load_osos-Agree s d inside,
            load_entries-Agree k s (d + 40),
          )
          refl
  ]

  looks_like_wrapped-Agree : looks_like_wrapped (buffer a n) ≡ looks_like_wrapped (buffer b n)
  unfolding looks_like_wrapped
  looks_like_wrapped-Agree = elim (Bool-cases (leb 0x4200 n)) [
    | inl h ↦ rw (rd32-Agree n a b same 0x100 (omega (arith, leb→le 0x4200 n h))) refl
    | inr h ↦ rw h refl
  ]

  load_wrapped-Agree :
      (s : State) → load_wrapped_firmware s (buffer a n) ≡ load_wrapped_firmware s (buffer b n)
  unfolding load_wrapped_firmware
  load_wrapped-Agree s = elim (Bool-cases (looks_like_wrapped (buffer a n))) [
    | inl h ↦
        rw
          (
            rd32-Agree n a b same 0x104 (omega (arith, is_long (buffer a n) h)),
            looks_like_wrapped-Agree,
            load_entries-Agree n s (rd32 b 0x104 + 0x200),
          )
          refl
    | inr h ↦ rw (h, sym looks_like_wrapped-Agree ∙ h) refl
  ]

  load_ipod-Agree :
      (s : State) → load_ipod_firmware s (buffer a n) ≡ load_ipod_firmware s (buffer b n)
  unfolding load_ipod_firmware
  load_ipod-Agree s = elim (Bool-cases (leb n 8)) [
    | inl h ↦ rw h refl
    | inr h ↦
        let long : 8 < n = leb→lt n 8 h in
        rw
          (
            same 4 (omega arith),
            same 5 (omega arith),
            same 6 (omega arith),
            same 7 (omega arith),
            place-Agree n a b same (ram_ptr s s.opts.load_addr (n - 8)) s 8 (n - 8) (omega arith),
          )
          refl
  ]

  load_firmware-Agree :
      (s : State) → load_firmware s (some (buffer a n)) ≡ load_firmware s (some (buffer b n))
  unfolding load_firmware
  load_firmware-Agree s =
      ap₂ or_load (ap₂ or_load (load_wrapped-Agree s) (fun_ext (λ t. load_ipod-Agree t)))
        (fun_ext (λ t. place-Agree n a b same (ram_ptr t t.opts.load_addr n) t 0 n (omega arith)))

module _ (n : ℕ) (a b : Array ℕ) (same : Agree n a b) where
  load_from-Agree :
      (s : State) (start : ℕ)
      → load_wrapped_firmware s (from_byte (buffer a n) start)
        ≡ load_wrapped_firmware s (from_byte (buffer b n) start)
  load_from-Agree s start =
      load_wrapped-Agree (n - start) (λ i. a (start + i)) (λ i. b (start + i))
        (λ i lt. same (start + i) (omega arith)) s

  -- A directory that starts past the end is out of range, whatever is read of its place.
  in_range-Agree :
      (pos : ℕ)
      → 0x100 ≤ pos
      → (ltb 0x100000 (rd32 a (pos + 4)) || ltb n (pos - 0x100 + rd32 a (pos + 4) + 0x228))
        ≡ (ltb 0x100000 (rd32 b (pos + 4)) || ltb n (pos - 0x100 + rd32 b (pos + 4) + 0x228))
  in_range-Agree pos far = elim (Bool-cases (leb (pos + 8) n)) [
    | inl h ↦ rw (rd32-Agree n a b same (pos + 4) (omega (arith, leb→le (pos + 8) n h))) refl
    | inr h ↦ ground arith
  ]

  load_at-Agree :
      (s : State) (pos : ℕ)
      → 0x100 ≤ pos
      → pos + 4 ≤ n
      → load_at s (buffer a n) pos ≡ load_at s (buffer b n) pos
  unfolding load_at
  load_at-Agree s pos far inside =
      rw
        (
          same pos (omega arith),
          same (pos + 1) (omega arith),
          same (pos + 2) (omega arith),
          same (pos + 3) (omega arith),
        )
        (elim (Bool-cases
          (ltb 0x100000 (rd32 b (pos + 4)) || ltb n (pos - 0x100 + rd32 b (pos + 4) + 0x228))) [
            | inl h ↦ rw (in_range-Agree pos far ∙ h, h) refl
            | inr h ↦
                let inside : pos - 0x100 + rd32 b (pos + 4) + 0x228 ≤ n = ground (arith, h) in
                rw
                  (
                    rd32-Agree n a b same (pos + 4) (omega arith),
                    is_osos-Agree n a b same (pos - 0x100 + rd32 b (pos + 4) + 0x200) (omega arith),
                    load_from-Agree s (pos - 0x100),
                  )
                  refl
          ])

  search_image-Agree :
      (k : ℕ) (s : State) (pos : ℕ)
      → 0x100 ≤ pos
      → search_image k s (buffer a n) pos ≡ search_image k s (buffer b n) pos
  unfolding search_image
  search_image-Agree zero s pos far = refl
  search_image-Agree (suc k) s pos far = elim (Bool-cases (leb (pos + 4) n)) [
    | inl h ↦ rw h (
        ap₂ or_load (load_at-Agree s pos far (leb→le (pos + 4) n h))
          (fun_ext (λ t. search_image-Agree k t (pos + 4) (omega arith))))
    | inr h ↦ rw h refl
  ]

-- No loader depends on what lies past the end of what it reads: two firmware files of one size whose
-- bytes below it are the same load alike, and so do two disk images whose bytes below the disk's
-- size are the same.
pub load_depends_inside :
    (s : State) (n : ℕ) (a b c d : Array ℕ)
    → ((i : ℕ) → i < n → a i ≡ b i)
    → ((i : ℕ) → i < s.disk.size → c i ≡ d i)
    → (load_firmware s (some (record { bytes = a; size = n }))
        ≡ load_firmware s (some (record { bytes = b; size = n })))
      × (load_from_image (some c) s ≡ load_from_image (some d) s)
unfolding load_from_image
load_depends_inside s n a b c d same same_image = (
  load_firmware-Agree n a b same s,
  rw (search_image-Agree s.disk.size c d same_image s.disk.size s 0x100 (omega arith)) refl,
)
