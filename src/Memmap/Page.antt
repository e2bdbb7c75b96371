-- ===== src/Memmap/Page.antt =====
-- What a translation does to an address: it moves pages of 64 KiB below the fast RAM.
use native.Mathlib.Decide.{dec_lt}
use mathlib.Core.Path.{subst}
use nano1g_unicorn_c.Base.{
  ℕ, ◌*◌, ◌%◌, ◌^◌, ◌<◌, true, bit_and, some, List, [], ◌∷◌, ◌≡◌, arith, Bool-cases, inl, inr, sym,
  ap, ◌∙◌,
}
use nano1g_unicorn_c.Word.{
  bit, suc-ones, le-ones, bit-and, bit-or, bit-clear, bit-mod, bit_above, eq_of_bits,
  bit_or-le-ones, bit_and-le-ones, bit_and_comm, clear_bits, not32, bit-zero,
}
use nano1g_unicorn_c.Memmap.{
  Entry, Access, decode, entry_matches, translate_addr, translate, fastram_base, mask_bits,
  addr_bits,
}

-- An entry that the registers can hold.
pub record IsDecoded (e : Entry) : Type 0 where
  pub mask_is : (m : ℕ) × (e.mask ≡ m * 2 ^ 16) × (m < 2 ^ 14)
  pub target_is : e.target < 2 ^ 30

decode-IsDecoded : (mask_reg target_reg : ℕ) → IsDecoded (decode mask_reg target_reg)
unfolding decode
decode-IsDecoded mask_reg target_reg =
    let low : bit_and mask_reg mask_bits < 2 ^ 14 = omega (
      arith,
      bit_and-le-ones 14 mask_bits mask_reg (omega (arith, suc-ones 14)),
      bit_and_comm mask_reg mask_bits,
      suc-ones 14,
    ) in
    record {
      mask_is = (bit_and mask_reg mask_bits, omega arith, low);
      target_is = omega (
        arith,
        bit_and-le-ones 30 addr_bits target_reg (omega (arith, suc-ones 30)),
        bit_and_comm target_reg addr_bits,
        suc-ones 30,
      );
    }

-- An address below the fast RAM, under an entry of the table.
module _ (e : Entry) (addr : ℕ) (h : addr < 2 ^ 30) (d : IsDecoded e) where
  bit-mask_low : (k : ℕ) → k < 16 → bit e.mask k ≡ 0
  bit-mask_low k lt =
      let (m, is, _) = d.mask_is in
      sym (bit-mod e.mask 16 k lt) ∙ ap (λ t. bit t k) (omega (arith, is)) ∙ bit-zero k

  translate_addr-low : translate_addr e addr % 2 ^ 16 ≡ addr % 2 ^ 16
  unfolding translate_addr
  translate_addr-low = eq_of_bits _ _ digit
    where
      digit : (k : ℕ) → bit (translate_addr e addr % 2 ^ 16) k ≡ bit (addr % 2 ^ 16) k
      digit k = elim (dec_lt k 16) [
        | yes lt ↦
            let (m, is, small) = d.mask_is in
            omega (
              arith,
              bit-mod (translate_addr e addr) 16 k lt,
              bit-mod addr 16 k lt,
              bit-or (clear_bits addr e.mask) (bit_and e.target e.mask) k,
              bit-clear addr e.mask k (omega arith) (omega (arith, is)),
              bit-and e.target e.mask k,
              bit-mask_low k lt,
            )
        | no ge ↦ omega (
          arith,
          bit_above 16 (translate_addr e addr % 2 ^ 16) k (omega (arith, suc-ones 16))
              (omega arith),
          bit_above 16 (addr % 2 ^ 16) k (omega (arith, suc-ones 16)) (omega arith),
        )
      ]

  translate_addr-lt : translate_addr e addr < 2 ^ 30
  unfolding translate_addr
  translate_addr-lt =
      let (m, is, small) = d.mask_is in
      omega (
        arith,
        suc-ones 30,
        bit_or-le-ones 30 (clear_bits addr e.mask) (bit_and e.target e.mask)
            (bit_and-le-ones 30 addr (not32 e.mask) (le-ones 30 addr h))
            (bit_and-le-ones 30 e.target e.mask (le-ones 30 e.target d.target_is)),
      )

-- The registers of the table: pairs of a mask and a target.
abbrev pub decode_all : List (ℕ × ℕ) → List Entry
decode_all [] = []
decode_all ((m, t) ∷ regs) = decode m t ∷ decode_all regs

matches-lt :
    (e : Entry) (addr : ℕ) (access : Access) → entry_matches e addr access ≡ true → addr < 2 ^ 30
unfolding entry_matches
matches-lt e addr access h = ground arith

-- Whatever the table's registers hold, an address that is translated lies below the fast RAM, and so
-- does its translation, at the same offset within a page of 64 KiB.
pub translate-page :
    (regs : List (ℕ × ℕ)) (addr : ℕ) (access : Access) (out : ℕ)
    → translate (decode_all regs) addr access ≡ some out
    → (addr < fastram_base) × (out < fastram_base) × (out % 2 ^ 16 ≡ addr % 2 ^ 16)
unfolding translate
translate-page [] addr access out h = ground (arith, h)
translate-page ((m, t) ∷ regs) addr access out h =
    elim (Bool-cases (entry_matches (decode m t) addr access)) [
      | inl hit ↦
          let lt = matches-lt (decode m t) addr access hit in
          let d = decode-IsDecoded m t in
          let is : translate_addr (decode m t) addr ≡ out = ground (arith, h, hit) in
          (
            lt,
            subst (λ o. o < 2 ^ 30) is (translate_addr-lt (decode m t) addr lt d),
            subst (λ o. o % 2 ^ 16 ≡ addr % 2 ^ 16) is (translate_addr-low (decode m t) addr lt d),
          )
      | inr miss ↦ translate-page regs addr access out (ground (arith, h, miss))
    ]
