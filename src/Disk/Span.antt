-- ===== src/Disk/Span.antt =====
-- The bytes that words take in an image.
use native.Mathlib.Decide.{dec_lt, ℕ_discrete}
use nano1g_unicorn_c.Base.{
  ℕ, zero, suc, ◌+◌, ◌-◌, ◌*◌, ◌/◌, ◌%◌, ◌<◌, ◌&&◌, ltb, leb, ◌==◌, if◌then◌else◌, Array, ◌≡◌, refl,
  ◌∙◌, ap, fun_ext, arith, bit_and, ap₂,
}
use nano1g_unicorn_c.Word.{bit_and-low_eight, bit_and-low_sixteen}
use nano1g_unicorn_c.Disk.Writing.{put_word, put_words, put_sectors}

-- Byte number `i` of some words of 16 bits.
abbrev pub byte_of : Array ℕ → Array ℕ
byte_of w i = if i % 2 == 0 then w (i / 2) % 256 else (w (i / 2) / 256) % 256

-- An array with `n` bytes from `from` on replaced.
abbrev pub span : Array ℕ → ℕ → ℕ → Array ℕ → Array ℕ
span d from n f j = if leb from j && ltb j (from + n) then f (j - from) else d j

pub span_in :
    (d : Array ℕ) (from n : ℕ) (f : Array ℕ) (i : ℕ) → i < n → span d from n f (from + i) ≡ f i
span_in d from n f i h = let e : from + i - from ≡ i = omega arith in rw e (ground arith)

merge_at :
    (d : Array ℕ) (o a b : ℕ) (f g : Array ℕ) (j : ℕ)
    → g (j - (o + a)) ≡ f (a + (j - (o + a)))
    → span (span d o a f) (o + a) b g j ≡ span d o (a + b) f j
merge_at d o a b f g j h = elim (dec_lt j (o + a)) [
  | yes lt ↦ ground arith
  | no ge ↦
      let e : a + (j - (o + a)) ≡ j - o = omega arith in
      let moved : g (j - (o + a)) ≡ f (j - o) = h ∙ ap f e in ground (arith, moved)
]

merge :
    (d : Array ℕ) (o a b : ℕ) (f g : Array ℕ)
    → ((m : ℕ) → g m ≡ f (a + m))
    → span (span d o a f) (o + a) b g ≡ span d o (a + b) f
merge d o a b f g h = fun_ext (λ j. merge_at d o a b f g j (h (j - (o + a))))

byte_of-later : (w : Array ℕ) (a m : ℕ) → byte_of (λ i. w (a + i)) m ≡ byte_of w (2 * a + m)
byte_of-later w a m =
    let half : (2 * a + m) / 2 ≡ a + m / 2 = omega arith in
    let odd : (2 * a + m) % 2 ≡ m % 2 = omega arith in rw (half, odd) refl

byte_of-suc : (w : Array ℕ) (m : ℕ) → byte_of (λ i. w (suc i)) m ≡ byte_of w (2 + m)
byte_of-suc w m =
    let half : (2 + m) / 2 ≡ suc (m / 2) = omega arith in
    let odd : (2 + m) % 2 ≡ m % 2 = omega arith in rw (half, odd) refl

low_byte : (v : ℕ) → bit_and (bit_and v 0xffff) 0xff ≡ v % 256
low_byte v = omega (arith, bit_and-low_sixteen v, bit_and-low_eight (bit_and v 0xffff))

high_byte : (v : ℕ) → bit_and v 0xffff / 256 % 256 ≡ (v / 256) % 256
high_byte v = omega (arith, bit_and-low_sixteen v)

put_word_at :
    (d : Array ℕ) (off : ℕ) (w : Array ℕ) (j : ℕ)
    → put_word d off (w 0) j ≡ span d off 2 (byte_of w) j
put_word_at d off w j = elim (ℕ_discrete j off) [
  | yes e ↦
      let first : off - off ≡ 0 = omega arith in rw (e, first) (ground (arith, low_byte (w 0)))
  | no ne ↦ elim (ℕ_discrete j (off + 1)) [
    | yes e ↦
        let second : off + 1 - off ≡ 1 = omega arith in
        rw (e, second) (ground (arith, high_byte (w 0)))
    | no ne' ↦ ground arith
  ]
]

put_word-span :
    (d : Array ℕ) (off : ℕ) (w : Array ℕ) → put_word d off (w 0) ≡ span d off 2 (byte_of w)
put_word-span d off w = fun_ext (put_word_at d off w)

put_words-span :
    (k : ℕ) (d : Array ℕ) (off : ℕ) (w : Array ℕ)
    → put_words k d off w ≡ span d off (2 * k) (byte_of w)
unfolding put_words
put_words-span zero d off w = fun_ext (λ j. ground arith)
put_words-span (suc k) d off w =
    put_words-span k (put_word d off (w 0)) (off + 2) (λ i. w (suc i))
    ∙ ap (λ e. span e (off + 2) (2 * k) (byte_of (λ i. w (suc i)))) (put_word-span d off w)
    ∙ merge d off 2 (2 * k) (byte_of w) (byte_of (λ i. w (suc i))) (λ m. byte_of-suc w m)
    ∙ ap (λ n. span d off n (byte_of w)) (omega arith)

pub put_sectors-span :
    (n : ℕ) (d : Array ℕ) (lba : ℕ) (w : Array ℕ)
    → put_sectors n d lba w ≡ span d (lba * 512) (n * 512) (byte_of w)
unfolding put_sectors
put_sectors-span zero d lba w = fun_ext (λ j. ground arith)
put_sectors-span (suc n) d lba w =
    put_sectors-span n (put_words 256 d (lba * 512) w) (lba + 1) (λ i. w (256 + i))
    ∙ ap₂ (λ e off. span e off (n * 512) (byte_of (λ i. w (256 + i))))
        (put_words-span 256 d (lba * 512) w) (omega arith)
    ∙ merge d (lba * 512) 512 (n * 512) (byte_of w) (byte_of (λ i. w (256 + i)))
        (byte_of-later w 256)
    ∙ ap (λ k. span d (lba * 512) k (byte_of w)) (omega arith)
