-- ===== src/Lcd2/Raster.antt =====
-- The order of the pixels: a window is filled row by row, and then begun again.
use mathlib.Core.Path.{subst}
use nano1g_unicorn_c.Base.{
  ℕ, zero, suc, ◌+◌, ◌-◌, ◌*◌, ◌≤◌, ◌<◌, ◌≡◌, ◌≢◌, ◌⊎◌, true, false, ◌&&◌, ltb, ◌==◌, if◌then◌else◌,
  store, store_self, store_ne, Bool-cases, inl, inr, refl, arith, ap, sym, ◌∙◌, ==→eq,
}
use nano1g_unicorn_c.State.{Lcd2}
use nano1g_unicorn_c.Lcd2.{
  lcd_w, lcd_gram_h, lcd_h, lcd2_init_window, next_x, next_y, draw, lcd2_push_pixel,
}

-- A window of the columns x0 to x1 and the rows y0 to y1 that was set, within the memory.
pub record HasWindow (d : Lcd2) (x0 y0 x1 y1 : ℕ) : Type 0 where
  pub left : d.window_x0 ≡ x0
  pub top : d.window_y0 ≡ y0
  pub right : d.window_x1 ≡ x1
  pub bottom : d.window_y1 ≡ y1

abbrev pub Fits : ℕ → ℕ → ℕ → ℕ → Type 0
Fits x0 y0 x1 y1 = (x0 ≤ x1) × (y0 ≤ y1) × (x1 < lcd_w) × (y1 < lcd_gram_h) × (0 < x1 + y1)

abbrev pub IsAt : Lcd2 → ℕ → ℕ → Type 0
IsAt d x y = (d.cursor_x ≡ x) × (d.cursor_y ≡ y)

abbrev fresh : Lcd2 → Lcd2
fresh d = record d { window_x0 = 0; window_y0 = 0; window_x1 = lcd_w - 1; window_y1 = lcd_h - 1 }

module _ (x0 y0 x1 y1 : ℕ) (fits : Fits x0 y0 x1 y1) where
  module _ (d : Lcd2) (w : HasWindow d x0 y0 x1 y1) (v : ℕ) where
    init-same : lcd2_init_window d ≡ d
    unfolding lcd2_init_window
    init-same =
        let set : ((d.window_x1 == 0) && (d.window_y1 == 0)) ≡ false =
          ground (arith, w.right, w.bottom, fits) in
        ap (λ b. if b then fresh d else d) set

    push-draw : lcd2_push_pixel d v ≡ draw d v
    unfolding lcd2_push_pixel
    push-draw = ap (λ e. draw e v) init-same

    draw-HasWindow : HasWindow (draw d v) x0 y0 x1 y1
    unfolding draw
    draw-HasWindow = record { left = w.left; top = w.top; right = w.right; bottom = w.bottom }

    -- A step to the right, and the step at the edge.
    push-right : (x y : ℕ) → IsAt d x y → x < x1 → IsAt (draw d v) (x + 1) y
    unfolding draw next_x next_y
    push-right x y (a, b) lt =
        (ground (arith, a, lt, w.right, fits), ground (arith, a, b, lt, w.right, fits))

    push-edge : (y : ℕ) → IsAt d x1 y → y ≤ y1 → IsAt (draw d v) x0 (if y == y1 then y0 else y + 1)
    unfolding draw next_x next_y
    push-edge y (a, b) le = (
      ground (arith, a, w.right, w.left, fits),
      ground (arith, a, b, le, w.right, w.top, w.bottom, fits),
    )

    push-pixels :
        (x y : ℕ)
        → IsAt d x y
        → x ≤ x1
        → y ≤ y1
        → (draw d v).pixels ≡ store d.pixels (y * lcd_w + x) v
    unfolding draw
    push-pixels x y (a, b) lx ly =
        let inside : (ltb d.cursor_x lcd_w && ltb d.cursor_y lcd_gram_h) ≡ true =
          ground (arith, a, b, lx, ly, fits) in
        let place : d.cursor_y * lcd_w + d.cursor_x ≡ y * lcd_w + x = omega (arith, a, b) in
        ap (λ t. if t then store d.pixels (d.cursor_y * lcd_w + d.cursor_x) v else d.pixels) inside
        ∙ ap (λ i. store d.pixels i v) place

-- The first `n` places from `start` hold the pixels of `f`, the others what they held.
abbrev pub Filled : Lcd2 → Lcd2 → ℕ → ℕ → (ℕ → ℕ) → Type 0
Filled d e start n f =
    ((i : ℕ) → i < n → e.pixels (start + i) ≡ f i)
    × ((p : ℕ) → (p < start) ⊎ (start + n ≤ p) → e.pixels p ≡ d.pixels p)

Filled-suc :
    (d e e' : Lcd2) (start n : ℕ) (f : ℕ → ℕ)
    → e'.pixels ≡ store e.pixels (start + n) (f n)
    → Filled d e start n f
    → Filled d e' start (suc n) f
Filled-suc d e e' start n f new (old, same) = (
  λ i lt. elim (Bool-cases (i == n)) [
    | inl h ↦
        let here : i ≡ n = ==→eq i n h in
        ap (λ g. g (start + i)) new
        ∙ ap (λ k. store e.pixels (start + n) (f n) (start + k)) here
        ∙ store_self e.pixels (start + n) (f n)
        ∙ ap f (sym here)
    | inr h ↦
        let apart : start + i ≢ start + n = ground (arith, h) in
        ap (λ g. g (start + i)) new
        ∙ store_ne e.pixels (start + n) (start + i) (f n) apart
        ∙ old i (ground (arith, h, lt))
  ],
  λ p out.
      ap (λ g. g p) new
      ∙ store_ne e.pixels (start + n) p (f n) (λ e. omega (arith, e, out))
      ∙ same p (omega (arith, out)),
)

-- `n` pixels, and `m` rows of `n` pixels.
unfoldable pub push_row : (ℕ → ℕ) → ℕ → Lcd2 → Lcd2
push_row f zero d = d
push_row f (suc n) d = lcd2_push_pixel (push_row f n d) (f n)

unfoldable pub push_rows : (ℕ → ℕ → ℕ) → ℕ → ℕ → Lcd2 → Lcd2
push_rows f n zero d = d
push_rows f n (suc m) d = push_row (f m) n (push_rows f n m d)

module _ (x0 y0 x1 y1 : ℕ) (fits : Fits x0 y0 x1 y1) where
  -- The part of a row before its last pixel, and the row.
  module _ (f : ℕ → ℕ) (d : Lcd2) (w : HasWindow d x0 y0 x1 y1) (y : ℕ) (at : IsAt d x0 y)
      (le : y ≤ y1) where
    abbrev RowPart : ℕ → Lcd2 → Type 0
    RowPart n e = HasWindow e x0 y0 x1 y1 × IsAt e (x0 + n) y × Filled d e (y * lcd_w + x0) n f

    row-part : (n : ℕ) → x0 + n ≤ x1 → RowPart n (push_row f n d)
    unfolding push_row
    row-part zero lx =
        (w, (omega (arith, at), at.1), (λ i lt. absurd (omega (arith, lt)), λ p out. refl))
    row-part (suc n) lx =
        let e = push_row f n d in
        let (v, a, filled) = row-part n (omega (arith, lx)) in
        let (right, same) =
          push-right x0 y0 x1 y1 fits e v (f n) (x0 + n) y a (omega (arith, lx)) in
        let place : y * lcd_w + (x0 + n) ≡ y * lcd_w + x0 + n = omega arith in
        let stored =
          push-pixels x0 y0 x1 y1 fits e v (f n) (x0 + n) y a (omega (arith, lx)) le
          ∙ ap (λ i. store e.pixels i (f n)) place in
        subst (RowPart (suc n)) (sym (push-draw x0 y0 x1 y1 fits e v (f n))) (
          draw-HasWindow x0 y0 x1 y1 fits e v (f n),
          (omega (arith, right), same),
          Filled-suc d e (draw e (f n)) (y * lcd_w + x0) n f stored filled,
        )

    abbrev pub RowDone : ℕ → Lcd2 → Type 0
    RowDone n e =
        HasWindow e x0 y0 x1 y1
        × IsAt e x0 (if y == y1 then y0 else y + 1)
        × Filled d e (y * lcd_w + x0) n f

    pub row-done : (n : ℕ) → x0 + n ≡ x1 → RowDone (suc n) (push_row f (suc n) d)
    unfolding push_row
    row-done n last =
        let e = push_row f n d in
        let (v, (a, b), filled) = row-part n (omega (arith, last)) in
        let place : y * lcd_w + x1 ≡ y * lcd_w + x0 + n = omega (arith, last) in
        let at_edge = a ∙ last in
        let stored =
          push-pixels x0 y0 x1 y1 fits e v (f n) x1 y (at_edge, b) (omega arith) le
          ∙ ap (λ i. store e.pixels i (f n)) place in
        subst (RowDone (suc n)) (sym (push-draw x0 y0 x1 y1 fits e v (f n))) (
          draw-HasWindow x0 y0 x1 y1 fits e v (f n),
          push-edge x0 y0 x1 y1 fits e v (f n) y (at_edge, b) le,
          Filled-suc d e (draw e (f n)) (y * lcd_w + x0) n f stored filled,
        )
