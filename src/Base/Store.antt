-- ===== src/Base/Store.antt =====
-- C arrays as functions from the index: a read gives the element, a write gives a new function.
-- The bounds are the code's own tests.
use Prim.Native.Nat.{ℕ, ◌+◌, ◌-◌}
use mathlib.Core.Bool.{◌&&◌}
use mathlib.Core.Path.{◌≡◌}
use mathlib.Core.Logic.{◌≢◌}
use native.Mathlib.Omega.{arith}
use nano1g_unicorn_c.Base.Test.{◌==◌, ltb, leb, if◌then◌else◌}

abbrev pub Array {ℓ} : Type ℓ → Type ℓ
Array A = ℕ → A

-- A buffer of bytes with its size.
pub record Buffer : Type 0 where
  pub bytes : Array ℕ
  pub size : ℕ

module _ {ℓ} {A : Type ℓ} where
  abbrev pub store : Array A → ℕ → A → Array A
  store f i v j = if j == i then v else f j

  pub store_self : (f : Array A) (i : ℕ) (v : A) → store f i v i ≡ v
  store_self f i v = ground arith

  pub store_ne : (f : Array A) (i j : ℕ) (v : A) → j ≢ i → store f i v j ≡ f j
  store_ne f i j v h = ground arith

-- memcpy of `n` bytes.
abbrev pub copy_bytes : Array ℕ → ℕ → Array ℕ → ℕ → ℕ → Array ℕ
copy_bytes dst off src from n =
    λ j. if leb off j && ltb j (off + n) then src (from + (j - off)) else dst j
