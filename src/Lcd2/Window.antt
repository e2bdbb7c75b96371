-- ===== src/Lcd2/Window.antt =====
-- A whole window of pixels: what its places show, and where the cursor ends.
use nano1g_unicorn_c.Base.{
  ℕ, zero, suc, ◌+◌, ◌*◌, ◌≤◌, ◌<◌, ◌≡◌, ◌==◌, if◌then◌else◌, Bool-cases, inl, inr, refl, arith, ap,
  sym, ◌∙◌, ==→eq,
}
use nano1g_unicorn_c.State.{Lcd2}
use nano1g_unicorn_c.Lcd2.{lcd_w}
use nano1g_unicorn_c.Lcd2.Raster.{HasWindow, Fits, IsAt, push_rows, row-done}

-- An earlier row lies before a later one.
before-row :
    (x0 y0 j k i : ℕ) → j < k → i < lcd_w → (y0 + j) * lcd_w + x0 + i < (y0 + k) * lcd_w + x0
before-row x0 y0 j k i lt r = omega arith

module _ (x0 y0 n m : ℕ) (fits : Fits x0 y0 (x0 + n) (y0 + m)) (f : ℕ → ℕ → ℕ) (d : Lcd2)
    (w : HasWindow d x0 y0 (x0 + n) (y0 + m)) (at : IsAt d x0 y0) where
  -- The first `k` rows.
  abbrev RowsDone : ℕ → Lcd2 → Type 0
  RowsDone k e =
      HasWindow e x0 y0 (x0 + n) (y0 + m)
      × IsAt e x0 (if k == suc m then y0 else y0 + k)
      × ((j i : ℕ) → j < k → i ≤ n → e.pixels ((y0 + j) * lcd_w + x0 + i) ≡ f j i)

  rows-done : (k : ℕ) → k ≤ suc m → RowsDone k (push_rows f (suc n) k d)
  unfolding push_rows
  rows-done zero le = (w, (at.0, ground (arith, at)), λ j i lt r. absurd (omega (arith, lt)))
  rows-done (suc k) le =
      let e = push_rows f (suc n) k d in
      let (v, (a, b), old) = rows-done k (omega (arith, le)) in
      let row : e.cursor_y ≡ y0 + k = ground (arith, b, le) in
      let (v', (a', b'), (new, same)) =
        row-done x0 y0 (x0 + n) (y0 + m) fits (f k) e v (y0 + k) (a, row) (omega (arith, le)) n
          refl in
      (
        v',
        (a', ground (arith, b', le)),
        λ j i lt r. elim (Bool-cases (j == k)) [
          | inl h ↦
              let here : j ≡ k = ==→eq j k h in
              ap (λ q. (push_rows f (suc n) (suc k) d).pixels ((y0 + q) * lcd_w + x0 + i)) here
              ∙ new i (omega (arith, r))
              ∙ ap (λ q. f q i) (sym here)
          | inr h ↦
              same ((y0 + j) * lcd_w + x0 + i)
                (inl (before-row x0 y0 j k i (ground (arith, h, lt)) (omega (arith, fits, r))))
              ∙ old j i (ground (arith, h, lt)) r
        ],
      )

-- On a window that was set, within the memory, with the cursor in its first corner: pixels for all
-- its rows of all its columns, pushed one after the other, fill it row by row from the left, each
-- place holding the pixel pushed for it, and the cursor ends in the first corner again.
pub push_rows-window :
    (x0 y0 n m : ℕ) (fits : Fits x0 y0 (x0 + n) (y0 + m)) (f : ℕ → ℕ → ℕ) (d : Lcd2)
    → HasWindow d x0 y0 (x0 + n) (y0 + m)
    → IsAt d x0 y0
    → IsAt (push_rows f (suc n) (suc m) d) x0 y0
      × ((j i : ℕ)
          → j ≤ m
          → i ≤ n
          → (push_rows f (suc n) (suc m) d).pixels ((y0 + j) * lcd_w + x0 + i) ≡ f j i)
push_rows-window x0 y0 n m fits f d w at =
    let (v, (a, b), all) = rows-done x0 y0 n m fits f d w at (suc m) (omega arith) in
    ((a, ground (arith, b)), λ j i le r. all j i (omega (arith, le)) r)
