-- ===== src/Flash/Contents.antt =====
-- What the chip holds, apart from the window that a command shows over it: which commands change it,
-- and that reading the array gives it.
use native.Mathlib.Decide.{ℕ_discrete}
use nano1g_unicorn_c.Base.{
  ℕ, zero, suc, ◌+◌, ◌-◌, ◌*◌, Bool, true, false, refl, ◌&&◌, ltb, leb, ◌==◌, if◌then◌else◌,
  bit_and, Array, ◌≡◌, arith, ap, ◌∙◌,
}
use nano1g_unicorn_c.Word.{u8, shr32}
use nano1g_unicorn_c.State.{Flash, mode_array}
use nano1g_unicorn_c.Flash.{
  flash_size, window_size, program_bytes, erase_block, write_chip, command, enter_status, enter_id,
  enter_cfi, enter_array, restore_window, save_window,
}

-- The array behind the window.
abbrev pub contents : Flash → Array ℕ
contents f = λ j. if f.saved_window_valid && ltb j window_size then f.saved_window j else f.bytes j

-- The window is saved exactly outside array mode, and a program in waiting writes to the bare array.
pub record IsValid (f : Flash) : Type 0 where
  pub saved_outside_array : f.saved_window_valid ≡ false → f.mode ≡ mode_array
  pub array_unsaved : f.mode ≡ mode_array → f.saved_window_valid ≡ false
  pub program_bare : f.program_pending ≡ true → f.saved_window_valid ≡ false
  pub one_pending : f.program_pending ≡ true → f.erase_pending ≡ false

-- A test between two chips.
if-IsValid : (t : Bool) (a b : Flash) → IsValid a → IsValid b → IsValid (if t then a else b)
if-IsValid true a b v w = v
if-IsValid false a b v w = w

when-IsValid :
    (t : Bool) (a b : Flash)
    → (t ≡ true → IsValid a)
    → (t ≡ false → IsValid b)
    → IsValid (if t then a else b)
when-IsValid true a b v w = v refl
when-IsValid false a b v w = w refl

status-IsValid : (f : Flash) → IsValid f → IsValid (record f { status = 0x80 })
status-IsValid f v = record {
  saved_outside_array = v.saved_outside_array;
  array_unsaved = v.array_unsaved;
  program_bare = v.program_bare;
  one_pending = v.one_pending;
}

-- After the data of a program command, after an erase, and after a set-up that was given up.
module _ (f : Flash) (m : Array ℕ) (v : IsValid f) where
  programmed-IsValid :
      f.program_pending ≡ true
      → IsValid (record f { bytes = m; status = 0x80; program_pending = false })
  programmed-IsValid p = ground arith

  erased-IsValid : IsValid (record f { bytes = m; status = 0x80 })
  erased-IsValid = ground arith

cancelled-IsValid : (f : Flash) → IsValid f → IsValid (record f { erase_pending = false })
cancelled-IsValid f v = ground arith

-- Nothing waits for data.
module _ (f : Flash) (v : IsValid f) (bare : f.program_pending ≡ false) where
  enter_status-IsValid : IsValid (enter_status f)
  unfolding enter_status save_window
  enter_status-IsValid = ground arith

  enter_id-IsValid : IsValid (enter_id f)
  unfolding enter_id save_window
  enter_id-IsValid = ground arith

  enter_cfi-IsValid : IsValid (enter_cfi f)
  unfolding enter_cfi save_window
  enter_cfi-IsValid = ground arith

  enter_array-IsValid : IsValid (enter_array f)
  unfolding enter_array restore_window
  enter_array-IsValid = ground arith

  set_up-IsValid :
      f.erase_pending ≡ false
      → IsValid (record (restore_window f) { program_pending = true; mode = mode_array })
        × IsValid (record (restore_window f) { erase_pending = true; mode = mode_array })
  unfolding restore_window
  set_up-IsValid e = ground arith

  command-IsValid : (cmd : ℕ) → f.erase_pending ≡ false → IsValid (command cmd f)
  unfolding command
  command-IsValid cmd e =
      let (program, erase) = set_up-IsValid e in
      if-IsValid (cmd == 0x10) _ _ program (
        if-IsValid (cmd == 0x40) _ _ program (
          if-IsValid (cmd == 0x20) _ _ erase (
            if-IsValid (cmd == 0x50) _ _ (status-IsValid f v) (
              if-IsValid (cmd == 0x70) _ _ enter_status-IsValid (
                if-IsValid (cmd == 0x90) _ _ enter_id-IsValid (
                  if-IsValid (cmd == 0x98) _ _ enter_cfi-IsValid (
                    if-IsValid (cmd == 0xff) _ _ enter_array-IsValid
                      (if-IsValid (cmd == 0xf0) _ _ enter_array-IsValid v))))))))

-- Every write to a valid chip, of whatever command or data, leaves it valid.
pub write_chip-IsValid :
    (f : Flash) (offset size value : ℕ) → IsValid f → IsValid (write_chip f offset size value)
unfolding write_chip
write_chip-IsValid f offset size value v =
    let g : Flash = if f.status == 0 then record f { status = 0x80 } else f in
    let w : IsValid g =
      if-IsValid (f.status == 0) (record f { status = 0x80 }) f (status-IsValid f v) v in
    when-IsValid g.program_pending _ _
      (λ p. enter_status-IsValid _ (programmed-IsValid g _ w p) refl)
      (λ p.
        when-IsValid g.erase_pending _ _
          (λ e.
            if-IsValid (u8 value == 0xd0) _ _ (enter_status-IsValid _ (erased-IsValid g _ w) p)
              (cancelled-IsValid g w))
          (λ e. command-IsValid g w p (u8 value) e))

-- What the chip should hold after a write: programming and a confirmed erase act on the contents
-- as on a bare array, and every other command leaves them.
abbrev pub contents_after : Flash → ℕ → ℕ → ℕ → Array ℕ
contents_after f offset size value =
    if f.program_pending
    then program_bytes (contents f) offset size value
    else if f.erase_pending && (u8 value == 0xd0)
    then erase_block (contents f) offset
    else contents f

-- Two arrays that agree are programmed alike.
program_bytes_ext :
    (m m' : Array ℕ) (offset size value : ℕ)
    → ((j : ℕ) → m j ≡ m' j)
    → (j : ℕ) → program_bytes m offset size value j ≡ program_bytes m' offset size value j
unfolding program_bytes
program_bytes_ext m m' offset zero value h j = h j
program_bytes_ext m m' offset (suc i) value h j = ground (
  arith,
  program_bytes_ext m m' offset i value h j,
  program_bytes_ext m m' offset i value h (offset + i),
)

command-contents :
    (cmd : ℕ) (f : Flash) → IsValid f → (j : ℕ) → contents (command cmd f) j ≡ contents f j
unfolding command
command-contents cmd f v j = ground arith

-- For a valid chip whose erase set-up, if there is one, stands in array mode, every write does to
-- every byte of the contents what it does to a bare array, whatever window is shown: data is
-- programmed, a confirmed erase erases its block, every other command leaves the contents.
pub contents-write_chip :
    (f : Flash) (offset size value : ℕ)
    → IsValid f
    → (f.erase_pending ≡ true → f.mode ≡ mode_array)
    → (j : ℕ) → contents (write_chip f offset size value) j ≡ contents_after f offset size value j
unfolding write_chip
contents-write_chip f offset size value v fresh j =
    ground (arith, program_bytes_ext f.bytes (contents f) offset size value)

-- Programming as a whole: each byte of the access that lies inside the chip is and-ed with its byte
-- of the data, and no other byte changes.
program_bytes_lem :
    (m : Array ℕ) (offset size value j : ℕ)
    → program_bytes m offset size value j ≡ (
        if leb offset j && ltb j (offset + size) && ltb j flash_size
        then bit_and (m j) (u8 (shr32 value (8 * (j - offset))))
        else m j)
unfolding program_bytes
program_bytes_lem m offset zero value j = ground arith
program_bytes_lem m offset (suc i) value j = elim (ℕ_discrete j (offset + i)) [
  | yes e ↦ ground (
    arith,
    program_bytes_lem m offset i value j,
    program_bytes_lem m offset i value (offset + i),
    ap m e,
    ap (λ t. u8 (shr32 value (8 * t))) (position j i e),
  )
  | no ne ↦ ground (arith, program_bytes_lem m offset i value j)
]
  where
    position : (j i : ℕ) → j ≡ offset + i → j - offset ≡ i
    position j i e = omega arith

-- Nothing waits for a second write.
abbrev pub IsIdle : Flash → Type 0
IsIdle f = (f.program_pending ≡ false) × (f.erase_pending ≡ false)

program_setup :
    (f : Flash) (at : ℕ)
    → IsIdle f
    → let g = write_chip f at 1 0x40 in (g.program_pending ≡ true) × (g.erase_pending ≡ false)
unfolding write_chip
program_setup f at idle = ground arith

program_done :
    (f : Flash) (offset size value : ℕ)
    → f.program_pending ≡ true
    → f.erase_pending ≡ false
    → IsIdle (write_chip f offset size value)
unfolding write_chip
program_done f offset size value p e = ground arith

-- Read-array on an idle chip: the bus then reads the contents.
pub read_array :
    (f : Flash) (at j : ℕ)
    → IsValid f
    → IsIdle f
    → let g = write_chip f at 1 0xff in (g.mode ≡ mode_array) × (g.bytes j ≡ contents f j)
unfolding write_chip
read_array f at j v idle = ground arith

after_program :
    (f : Flash) (offset size value j : ℕ)
    → f.program_pending ≡ true
    → contents_after f offset size value j ≡ program_bytes (contents f) offset size value j
after_program f offset size value j h = ground arith

after_setup : (f : Flash) (at j : ℕ) → IsIdle f → contents_after f at 1 0x40 j ≡ contents f j
after_setup f at j idle = ground arith

not_fresh : (f : Flash) → f.erase_pending ≡ false → f.erase_pending ≡ true → f.mode ≡ mode_array
not_fresh f e h = absurd (ground arith)

-- A whole programming cycle on a valid, idle chip: set-up, data, read-array. Afterwards the chip is
-- in array mode and shows the old contents with the data programmed into them.
program_cycle :
    (f : Flash) (at at' offset size value j : ℕ)
    → IsValid f
    → IsIdle f
    → let g = write_chip (write_chip (write_chip f at 1 0x40) offset size value) at' 1 0xff in
      (g.mode ≡ mode_array) × (g.bytes j ≡ program_bytes (contents f) offset size value j)
program_cycle f at at' offset size value j v idle =
    let set = write_chip f at 1 0x40 in
    let (waits, bare) = program_setup f at idle in
    let set_valid = write_chip-IsValid f at 1 0x40 v in
    let written = write_chip set offset size value in
    let written_valid = write_chip-IsValid set offset size value set_valid in
    let (shown, reads) =
      read_array written at' j written_valid (program_done set offset size value waits bare) in
    let same = λ (k : ℕ).
      contents-write_chip f at 1 0x40 v (not_fresh f idle.1) k ∙ after_setup f at k idle in
    (
      shown,
      reads
          ∙ contents-write_chip set offset size value set_valid (not_fresh set bare) j
          ∙ after_program set offset size value j waits
          ∙ program_bytes_ext (contents set) (contents f) offset size value same j,
    )
