-- ===== src/Disk/RoundTrip.antt =====
-- WRITE SECTORS as a whole, and READ SECTORS of what was written.
use mathlib.Core.Path.{subst}
use nano1g_unicorn_c.Base.{
  ℕ, zero, suc, ◌+◌, ◌*◌, ◌/◌, ◌%◌, ◌^◌, ◌<◌, ◌≤◌, true, ltb, Array, ◌≡◌, refl, ◌∙◌, ap, ap₂, arith,
  bit_or, Option, some, List, [], ◌∷◌, ◌++◌,
}
use nano1g_unicorn_c.Word.{glue}
use nano1g_unicorn_c.State.{State}
use nano1g_unicorn_c.Disk.Identify.{sector_count_of}
use nano1g_unicorn_c.Disk.Pio.{image_word}
use nano1g_unicorn_c.Disk.Registers.{disk_tick, disk_write, sectors_asked}
use nano1g_unicorn_c.Disk.Guest.{read_sectors, write_sectors, image_words, image_sectors}
use nano1g_unicorn_c.Disk.Reading.{AcceptsCommand, read_sectors_lem, sectors_asked-ne-zero}
use nano1g_unicorn_c.Disk.Writing.{IsOver, disk_write-write, disk_tick-InGap, write_sectors-InData}
use nano1g_unicorn_c.Disk.Span.{span, span_in, byte_of, put_sectors-span}

pub sectors_fit : (size n : ℕ) → 512 ≤ size → n ≤ sector_count_of size → n * 512 ≤ size
unfolding sector_count_of
sectors_fit size n h k = ground arith

-- WRITE SECTORS to a disk that accepts commands, where all the sectors asked for from the selected
-- LBA on are on the disk: when the guest has written words for all of them, with a tick before each
-- sector and one at the end, the bytes of those sectors are those of the words, low byte first, every
-- other byte of the image is as it was, and the command is over with an interrupt, with the LBA behind
-- the last sector, and the next command is accepted.
pub write_sectors_lem :
    (s : State) (d w : Array ℕ)
    → s.disk.image ≡ some d
    → AcceptsCommand s
    → 512 ≤ s.disk.size
    → s.disk.selected_lba + sectors_asked s ≤ sector_count_of s.disk.size
    → IsOver s.disk.size
        (write_sectors (sectors_asked s) (disk_tick (disk_write s 0x1fc 1 0x30)) w)
        (span d (s.disk.selected_lba * 512) (sectors_asked s * 512) (byte_of w))
        (s.disk.selected_lba + sectors_asked s)
write_sectors_lem s d w i a large h = go (sectors_asked s) refl h
  where
    go :
        (n : ℕ)
        → sectors_asked s ≡ n
        → s.disk.selected_lba + n ≤ sector_count_of s.disk.size
        → IsOver s.disk.size
            (write_sectors n (disk_tick (disk_write s 0x1fc 1 0x30)) w)
            (span d (s.disk.selected_lba * 512) (n * 512) (byte_of w))
            (s.disk.selected_lba + n)
    go zero e k = absurd (sectors_asked-ne-zero s e)
    go (suc n) e k =
        let lba = s.disk.selected_lba in
        let command = disk_write s 0x1fc 1 0x30 in
        let gap = disk_write-write s.disk.size s d (suc n) i refl a (omega arith) e in
        subst
          (λ x. IsOver s.disk.size (write_sectors (suc n) (disk_tick command) w) x (lba + suc n))
          (put_sectors-span (suc n) d lba w)
          (write_sectors-InData s.disk.size n (disk_tick command) d lba w
            (disk_tick-InGap s.disk.size command d lba (suc n) gap) k
            (sectors_fit s.disk.size (lba + suc n) large k))

-- `k` words from number `i` on, as the bus carries them.
abbrev pub listed : ℕ → ℕ → Array ℕ → List ℕ
listed zero i w = []
listed (suc k) i w = (w i % 2 ^ 16) ∷ listed k (suc i) w

listed-append : (a b i : ℕ) (w : Array ℕ) → listed a i w ++ listed b (i + a) w ≡ listed (a + b) i w
listed-append zero b i w =
    let here : i + 0 ≡ i = omega arith in
    let all : b ≡ 0 + b = omega arith in ap (λ x. listed b x w) here ∙ ap (λ x. listed x i w) all
listed-append (suc a) b i w =
    let next : i + suc a ≡ suc i + a = omega arith in
    let all : suc (a + b) ≡ suc a + b = omega arith in
    ap (λ l. (w i % 2 ^ 16) ∷ l)
      (ap (λ x. listed a (suc i) w ++ listed b x w) next ∙ listed-append a b (suc i) w)
    ∙ ap (λ k. listed k i w) all

byte_low : (w : Array ℕ) (i : ℕ) → byte_of w (2 * i) ≡ w i % 256
byte_low w i =
    let half : 2 * i / 2 ≡ i = omega arith in
    let even : 2 * i % 2 ≡ 0 = omega arith in rw (half, even) refl

byte_high : (w : Array ℕ) (i : ℕ) → byte_of w (2 * i + 1) ≡ w i / 256 % 256
byte_high w i =
    let half : (2 * i + 1) / 2 ≡ i = omega arith in
    let odd : (2 * i + 1) % 2 ≡ 1 = omega arith in rw (half, odd) refl

-- A word of the bytes that words have left.
join : (v : ℕ) → bit_or (v % 256) ((v / 256 % 256) * 2 ^ 8) ≡ v % 2 ^ 16
join v = ap (λ t. bit_or (v % 256) t) (omega arith) ∙ glue 16 v 8 (omega arith)

module _ (d w : Array ℕ) (o n size : ℕ) (inside : o + n ≤ size) where
  image_word-span :
      (i : ℕ)
      → 2 * i + 1 < n
      → image_word (some (span d o n (byte_of w))) size (o + 2 * i) ≡ w i % 2 ^ 16
  unfolding image_word
  image_word-span i h =
      let e = span d o n (byte_of w) in
      let within : ltb (o + 2 * i + 1) size ≡ true = ground arith in
      let low : e (o + 2 * i) ≡ w i % 256 =
        span_in d o n (byte_of w) (2 * i) (omega arith) ∙ byte_low w i in
      let high : e (o + 2 * i + 1) ≡ w i / 256 % 256 =
        ap e (omega arith) ∙ span_in d o n (byte_of w) (2 * i + 1) h ∙ byte_high w i in
      rw within (ap₂ (λ a b. bit_or a (b * 2 ^ 8)) low high ∙ join (w i))

  image_words-span :
      (k i : ℕ)
      → 2 * (i + k) ≤ n
      → image_words (some (span d o n (byte_of w))) size (o + 2 * i) k ≡ listed k i w
  unfolding image_words
  image_words-span zero i h = refl
  image_words-span (suc k) i h = ap₂ ◌∷◌ (image_word-span i (omega arith)) (
      ap (λ off. image_words (some (span d o n (byte_of w))) size off k) (omega arith)
      ∙ image_words-span k (suc i) (omega arith))

image_sectors-span :
    (d w : Array ℕ) (lba n size m k : ℕ)
    → lba * 512 + n * 512 ≤ size
    → m + k ≤ n
    → image_sectors (some (span d (lba * 512) (n * 512) (byte_of w))) size (lba + m) k
      ≡ listed (k * 256) (m * 256) w
unfolding image_sectors
image_sectors-span d w lba n size m zero inside h = refl
image_sectors-span d w lba n size m (suc k) inside h =
    let e = some (span d (lba * 512) (n * 512) (byte_of w)) in
    ap₂ ◌++◌
      (ap (λ off. image_words e size off 256) (omega arith)
        ∙ image_words-span d w (lba * 512) (n * 512) size inside 256 (m * 256) (omega arith))
      (ap (λ x. image_sectors e size x k) (omega arith)
        ∙ image_sectors-span d w lba n size (m + 1) k inside (omega arith)
        ∙ ap (λ x. listed (k * 256) x w) (omega arith))
    ∙ listed-append 256 (k * 256) (m * 256) w
    ∙ ap (λ x. listed x (m * 256) w) (omega arith)

same_sectors :
    (u : State) (n : ℕ) {e : Option (Array ℕ)} {size lba : ℕ}
    → u.disk.image ≡ e
    → u.disk.size ≡ size
    → u.disk.selected_lba ≡ lba
    → sectors_asked u ≡ n
    → image_sectors u.disk.image u.disk.size u.disk.selected_lba (sectors_asked u)
      ≡ image_sectors e size (lba + 0) n
same_sectors u n {e} {size} {lba} i z l c =
    ap₂ (λ (x : Option (Array ℕ)) (y : ℕ). image_sectors x y u.disk.selected_lba (sectors_asked u))
      i z
    ∙ ap₂ (λ x y. image_sectors e size x y) (l ∙ omega arith) c

-- Sectors that were written are read back: after a write as above, at any later time at which the
-- disk accepts commands, with the image as the write left it and the same sectors selected, READ
-- SECTORS gives the guest the words that it wrote, each cut to 16 bits.
pub read_sectors-write_sectors :
    (s u : State) (d w : Array ℕ)
    → s.disk.image ≡ some d
    → AcceptsCommand s
    → 512 ≤ s.disk.size
    → s.disk.selected_lba + sectors_asked s ≤ sector_count_of s.disk.size
    → AcceptsCommand u
    → u.disk.image
      ≡ (write_sectors (sectors_asked s) (disk_tick (disk_write s 0x1fc 1 0x30)) w).disk.image
    → u.disk.size ≡ s.disk.size
    → u.disk.selected_lba ≡ s.disk.selected_lba
    → sectors_asked u ≡ sectors_asked s
    → (read_sectors (sectors_asked u) (disk_tick (disk_write u 0x1fc 1 0x20))).0
      ≡ listed (sectors_asked s * 256) 0 w
read_sectors-write_sectors s u d w i a large h b image size lba count =
    let n = sectors_asked s in
    let done = write_sectors_lem s d w i a large h in
    let (words, over) =
      read_sectors_lem u b (omega (arith, h, lba, count, ap sector_count_of size)) in
    words
    ∙ same_sectors u n (image ∙ done.image_is) size lba count
    ∙ image_sectors-span d w s.disk.selected_lba n s.disk.size 0 n
        (omega (arith, sectors_fit s.disk.size (s.disk.selected_lba + n) large h)) (omega arith)
