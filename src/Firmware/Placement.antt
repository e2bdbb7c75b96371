-- ===== src/Firmware/Placement.antt =====
-- Where the code of a wrapped image comes to lie.
use nano1g_unicorn_c.Base.{
  Buffer, ℕ, zero, suc, ◌+◌, ◌*◌, ◌^◌, ◌≤◌, ◌<◌, Bool, true, false, ltb, leb, ◌==◌, if◌then◌else◌,
  ◌≡◌, ◌≢◌, refl, sym, ◌∙◌, ap, arith, some, Array,
}
use nano1g_unicorn_c.Word.{u32, shl32, bit_or-le-ones, le-ones, suc-ones, ones}
use nano1g_unicorn_c.State.{State, Opts}
use nano1g_unicorn_c.Ram.{Pointer, into_sdram, into_fastram, ram_ptr, ram_read}
use nano1g_unicorn_c.Ram.Copy.{ram_read-copy_to, load_le-byte, copy_to}
use nano1g_unicorn_c.Firmware.{
  rd32, is_osos, set_entry, place_payload, load_osos, load_entries, looks_like_wrapped,
  load_wrapped_firmware,
}

-- The directory's first entry, and the words of an entry.
abbrev pub dir : Buffer → ℕ
dir fw = rd32 fw.bytes 0x104 + 0x200

abbrev pub dev_off : Buffer → ℕ → ℕ
dev_off fw d = rd32 fw.bytes (d + 12)

abbrev pub length_of : Buffer → ℕ → ℕ
length_of fw d = rd32 fw.bytes (d + 16)

abbrev pub addr_of : Buffer → ℕ → ℕ
addr_of fw d = rd32 fw.bytes (d + 20)

abbrev pub entry_of : Buffer → ℕ → ℕ
entry_of fw d = rd32 fw.bytes (d + 24)

-- The directory's entry `k` is its first osos entry, and no entry before it is empty.
pub record IsFirst (fw : Buffer) (d k : ℕ) : Type 0 where
  pub inside : d + 40 * k + 40 ≤ fw.size
  pub used : (j : ℕ) → j ≤ k → rd32 fw.bytes (d + 40 * j) ≢ 0
  pub others : (j : ℕ) → j < k → is_osos fw.bytes (d + 40 * j) ≡ false
  pub osos : is_osos fw.bytes (d + 40 * k) ≡ true

IsFirst-next : (fw : Buffer) (d k : ℕ) → IsFirst fw d (suc k) → IsFirst fw (d + 40) k
IsFirst-next fw d k f = record {
  inside = omega (arith, f.inside);
  used = λ j le e. f.used (suc j) (omega arith) (ap (rd32 fw.bytes) (omega arith) ∙ e);
  others = λ j lt. ap (is_osos fw.bytes) (omega arith) ∙ f.others (suc j) (omega arith);
  osos = ap (is_osos fw.bytes) (omega arith) ∙ f.osos;
}

-- The loop comes to that entry.
load_entries-first :
    (n k : ℕ) (s : State) (fw : Buffer) (d : ℕ)
    → k < n
    → IsFirst fw d k
    → load_entries n s fw d ≡ load_osos s fw (d + 40 * k)
unfolding load_entries
load_entries-first zero k s fw d lt f = absurd (omega arith)
load_entries-first (suc n) zero s fw d lt f =
    let at : d + 40 * 0 ≡ d = omega arith in
    let fits : ltb fw.size (d + 40) ≡ false = ground (arith, f.inside) in
    let nonzero : rd32 fw.bytes d ≢ 0 = λ e. f.used 0 (omega arith) (ap (rd32 fw.bytes) at ∙ e) in
    let used : (rd32 fw.bytes d == 0) ≡ false = ground arith in
    rw (fits, used, sym (ap (is_osos fw.bytes) at) ∙ f.osos, at) refl
load_entries-first (suc n) (suc k) s fw d lt f =
    let at : d + 40 * 0 ≡ d = omega arith in
    let fits : ltb fw.size (d + 40) ≡ false = ground (arith, f.inside) in
    let nonzero : rd32 fw.bytes d ≢ 0 = λ e. f.used 0 (omega arith) (ap (rd32 fw.bytes) at ∙ e) in
    let used : (rd32 fw.bytes d == 0) ≡ false = ground arith in
    rw (fits, used, sym (ap (is_osos fw.bytes) at) ∙ f.others 0 (omega arith))
      (load_entries-first n k s fw (d + 40) (omega arith) (IsFirst-next fw d k f)
        ∙ ap (load_osos s fw) (omega arith))

rd32-lt : (m : Array ℕ) (off : ℕ) → m off < 2 ^ 8 → rd32 m off < 2 ^ 32
unfolding rd32
rd32-lt m off h =
    let top : (i n : ℕ) → shl32 (m (off + i)) n ≤ ones 32 =
      λ i n. le-ones 32 (shl32 (m (off + i)) n) (omega arith) in
    omega (
      arith,
      suc-ones 32,
      bit_or-le-ones 32 _ _
          (bit_or-le-ones 32 _ _
            (bit_or-le-ones 32 _ _ (le-ones 32 (m off) (omega arith)) (top 1 8)) (top 2 16))
          (top 3 24),
    )

load_wrapped-first :
    (s : State) (fw : Buffer) (k : ℕ)
    → looks_like_wrapped fw ≡ true
    → IsFirst fw (dir fw) k
    → load_wrapped_firmware s fw ≡ load_osos s fw (dir fw + 40 * k)
unfolding load_wrapped_firmware
load_wrapped-first s fw k w f =
    let fits : leb (dir fw + 40) fw.size ≡ true = ground (arith, f.inside) in
    rw (w, fits) (load_entries-first fw.size k s fw (dir fw) (omega (arith, f.inside)) f)

-- The options that a load sets, after the copy.
abbrev with_entry : State → ℕ → ℕ → State
with_entry t addr entry =
    set_entry (record t { opts = record t.opts { load_addr = addr } }) (u32 (addr + entry))

if_opts :
    (b : Bool) (t : State) (x y : Opts)
    → (if b then record t { opts = x } else record t { opts = y })
      ≡ record t { opts = if b then x else y }
if_opts true t x y = refl
if_opts false t x y = refl

if_same :
    (b : Bool) (f : Opts → ℕ) (x y : Opts) (v : ℕ) → f x ≡ v → f y ≡ v → f (if b then x else y) ≡ v
if_same true f x y v hx hy = hx
if_same false f x y v hx hy = hy

ap_if : (b : Bool) (f : Opts → ℕ) (x y : Opts) → f (if b then x else y) ≡ (if b then f x else f y)
ap_if true f x y = refl
ap_if false f x y = refl

ram_read-opts :
    (t : State) (o : Opts) (a n : ℕ) → ram_read (record t { opts = o }) a n ≡ ram_read t a n
unfolding ram_read ram_ptr
ram_read-opts t o a n = refl

module _ (t : State) (addr entry : ℕ) where
  abbrev kept : Opts
  kept = record t.opts { load_addr = addr }

  abbrev changed : Opts
  changed = record kept { entry = u32 (addr + entry); entry_set = true }

  with_entry_lem :
      with_entry t addr entry ≡ record t { opts = if t.opts.entry_set then kept else changed }
  with_entry_lem = if_opts t.opts.entry_set t kept changed

  with_entry-load_addr : (with_entry t addr entry).opts.load_addr ≡ addr
  with_entry-load_addr =
      ap (λ u. u.opts.load_addr) with_entry_lem
      ∙ if_same t.opts.entry_set (λ o. o.load_addr) kept changed addr refl refl

  with_entry-entry :
      (with_entry t addr entry).opts.entry
      ≡ (if t.opts.entry_set then t.opts.entry else u32 (addr + entry))
  with_entry-entry =
      ap (λ u. u.opts.entry) with_entry_lem ∙ ap_if t.opts.entry_set (λ o. o.entry) kept changed

  ram_read-with_entry : (a n : ℕ) → ram_read (with_entry t addr entry) a n ≡ ram_read t a n
  ram_read-with_entry a n = ap (λ u. ram_read u a n) with_entry_lem ∙ ram_read-opts t _ a n

copy_to-opts :
    (s : State) (p : Pointer) (src : Array ℕ) (from n : ℕ) → (copy_to s p src from n).opts ≡ s.opts
copy_to-opts s (into_sdram off) src from n = refl
copy_to-opts s (into_fastram off) src from n = refl

load_osos-fits :
    (s : State) (fw : Buffer) (d : ℕ) {p : Pointer}
    → dev_off fw d + 0x200 + length_of fw d ≤ fw.size
    → ram_ptr s (addr_of fw d) (length_of fw d) ≡ some p
    → load_osos s fw d ≡ (
      with_entry
          (copy_to s p fw.bytes (dev_off fw d + 0x200) (length_of fw d))
          (addr_of fw d)
          (entry_of fw d),
      true,
    )
unfolding load_osos place_payload
load_osos-fits s fw d inside e =
    let fits : ltb fw.size (dev_off fw d + 0x200 + length_of fw d) ≡ false =
      ground (arith, inside) in
    rw (fits, e) refl

-- A wrapped image of bytes is loaded by the first osos entry of its directory, number `k`, where the
-- entries before it are not empty, its payload lies in the file and its address and length lie in
-- memory. Then the load succeeds, each byte `i` of the payload is read at the address plus `i`, the
-- address is the load address, and the entry point is the one that was set before, or else the
-- address plus the entry's offset.
pub load_wrapped_places :
    (s : State) (fw : Buffer) (k i : ℕ) {p : Pointer}
    → ((j : ℕ) → fw.bytes j < 2 ^ 8)
    → looks_like_wrapped fw ≡ true
    → IsFirst fw (dir fw) k
    → dev_off fw (dir fw + 40 * k) + 0x200 + length_of fw (dir fw + 40 * k) ≤ fw.size
    → ram_ptr s (addr_of fw (dir fw + 40 * k)) (length_of fw (dir fw + 40 * k)) ≡ some p
    → i < length_of fw (dir fw + 40 * k)
    → ((load_wrapped_firmware s fw).1 ≡ true)
      × (ram_read (load_wrapped_firmware s fw).0 (addr_of fw (dir fw + 40 * k) + i) 1
          ≡ some (fw.bytes (dev_off fw (dir fw + 40 * k) + 0x200 + i)))
      × ((load_wrapped_firmware s fw).0.opts.load_addr ≡ addr_of fw (dir fw + 40 * k))
      × ((load_wrapped_firmware s fw).0.opts.entry ≡ (
          if s.opts.entry_set
          then s.opts.entry
          else u32 (addr_of fw (dir fw + 40 * k) + entry_of fw (dir fw + 40 * k))))
load_wrapped_places s fw k i {p} bytes w f inside e lt =
    let d = dir fw + 40 * k in
    let from = dev_off fw d + 0x200 in
    let t = copy_to s p fw.bytes from (length_of fw d) in
    let loaded : load_wrapped_firmware s fw ≡ (with_entry t (addr_of fw d) (entry_of fw d), true) =
      load_wrapped-first s fw k w f ∙ load_osos-fits s fw d inside e in
    rw loaded (
      refl,
      ram_read-with_entry t (addr_of fw d) (entry_of fw d) (addr_of fw d + i) 1
          ∙ ram_read-copy_to s (addr_of fw d) (length_of fw d) i from p fw.bytes
              (rd32-lt fw.bytes (d + 20) (bytes (d + 20)))
              (rd32-lt fw.bytes (d + 16) (bytes (d + 16))) lt e
          ∙ ap some (load_le-byte fw.bytes (from + i) (bytes (from + i))),
      with_entry-load_addr t (addr_of fw d) (entry_of fw d),
      with_entry-entry t (addr_of fw d) (entry_of fw d)
          ∙ ap (λ o. if o.entry_set then o.entry else u32 (addr_of fw d + entry_of fw d))
              (copy_to-opts s p fw.bytes from (length_of fw d)),
    )
