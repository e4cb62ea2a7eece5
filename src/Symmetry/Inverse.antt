-- ===== src/Symmetry/Inverse.antt =====
-- Each symmetry and its inverse.
use estar_go.Base.{
  ℕ, zero, suc, ◌-◌, ◌≤◌, ◌<◌, ◌≡◌, refl, arith, if◌then◌else◌, leb, true, ◌==◌, get_or, ap₂, ◌∙◌,
}
use estar_go.Base.Int.{ℤ, pos, negsuc, ◌-ℤ◌}
use estar_go.Symmetry.{
  Point, Symfunc, mirror, get_symfunc, get_revert_symfunc, symfunc_list, revert_symfunc_list, clk0,
  revert_clk0, checked_id,
}

pub mirror-mirror : (n : ℤ) → mirror (mirror n) ≡ n
unfolding mirror ◌-ℤ◌
mirror-mirror n = ground arith

abbrev pub apply : Symfunc → Point → Point
apply f p = f p.0 p.1

-- The two functions undo each other, both ways round.
abbrev Inverse : Symfunc → Symfunc → Type 0
Inverse f g =
    (row col : ℤ) → (apply g (f row col) ≡ (row, col)) × (apply f (g row col) ≡ (row, col))

revert_at :
    (i : ℕ) → Inverse (get_or symfunc_list i clk0) (get_or revert_symfunc_list i revert_clk0)
unfolding symfunc_list revert_symfunc_list
revert_at zero row col = (refl, refl)
revert_at (suc zero) row col = simp mirror-mirror (refl, refl)
revert_at (suc (suc zero)) row col = simp mirror-mirror (refl, refl)
revert_at (suc (suc (suc zero))) row col = simp mirror-mirror (refl, refl)
revert_at (suc (suc (suc (suc zero)))) row col = simp mirror-mirror (refl, refl)
revert_at (suc (suc (suc (suc (suc zero))))) row col = simp mirror-mirror (refl, refl)
revert_at (suc (suc (suc (suc (suc (suc zero)))))) row col = simp mirror-mirror (refl, refl)
revert_at (suc (suc (suc (suc (suc (suc (suc zero))))))) row col = (refl, refl)
revert_at (suc (suc (suc (suc (suc (suc (suc (suc i)))))))) row col = (refl, refl)

-- For every id, also one out of range, get_revert_symfunc undoes get_symfunc on every pair of
-- numbers, and the other way round.
pub get_revert_symfunc-get_symfunc :
    (symid row col : ℤ)
    → (apply (get_revert_symfunc symid) (get_symfunc symid row col) ≡ (row, col))
      × (apply (get_symfunc symid) (get_revert_symfunc symid row col) ≡ (row, col))
unfolding get_symfunc get_revert_symfunc
get_revert_symfunc-get_symfunc (pos n) row col = revert_at (checked_id (pos n) symfunc_list) row col
get_revert_symfunc-get_symfunc (negsuc n) row col = revert_at 0 row col

-- The forward symmetry that undoes a symmetry: only the quarter turns are not their own inverse.
abbrev pub inverse_id : ℤ → ℤ
inverse_id (pos n) = if n == 1 then pos 3 else if n == 3 then pos 1 else pos n
inverse_id (negsuc n) = negsuc n

-- A row and column on the board.
abbrev pub OnBoard : Point → Type 0
OnBoard p = (r : ℕ) × (c : ℕ) × (r < 19) × (c < 19) × (p ≡ (pos r, pos c))

mirror_nat : (n : ℕ) → n < 19 → mirror (pos n) ≡ pos (18 - n)
unfolding mirror ◌-ℤ◌
mirror_nat n h = ground arith

OnBoard-at : (i r c : ℕ) → r < 19 → c < 19 → OnBoard (get_or symfunc_list i clk0 (pos r) (pos c))
unfolding symfunc_list
OnBoard-at zero r c h k = (r, c, h, k, refl)
OnBoard-at (suc zero) r c h k = (c, 18 - r, k, omega arith, rw (mirror_nat r h))
OnBoard-at (suc (suc zero)) r c h k =
    (18 - r, 18 - c, omega arith, omega arith, rw (mirror_nat r h, mirror_nat c k))
OnBoard-at (suc (suc (suc zero))) r c h k = (18 - c, r, omega arith, h, rw (mirror_nat c k))
OnBoard-at (suc (suc (suc (suc zero)))) r c h k = (r, 18 - c, h, omega arith, rw (mirror_nat c k))
OnBoard-at (suc (suc (suc (suc (suc zero))))) r c h k =
    (18 - c, 18 - r, omega arith, omega arith, rw (mirror_nat r h, mirror_nat c k))
OnBoard-at (suc (suc (suc (suc (suc (suc zero)))))) r c h k =
    (18 - r, c, omega arith, k, rw (mirror_nat r h))
OnBoard-at (suc (suc (suc (suc (suc (suc (suc zero))))))) r c h k = (c, r, k, h, refl)
OnBoard-at (suc (suc (suc (suc (suc (suc (suc (suc i)))))))) r c h k = (r, c, h, k, refl)

-- A symmetry keeps the points of the board on the board.
pub get_symfunc-OnBoard :
    (symid : ℤ) (r c : ℕ) → r < 19 → c < 19 → OnBoard (get_symfunc symid (pos r) (pos c))
unfolding get_symfunc
get_symfunc-OnBoard (pos n) r c h k = OnBoard-at (checked_id (pos n) symfunc_list) r c h k
get_symfunc-OnBoard (negsuc n) r c h k = OnBoard-at 0 r c h k

-- An id from 8 on is taken for 0.
symfunc_out : (n : ℕ) → 8 ≤ n → (row col : ℤ) → get_symfunc (pos n) row col ≡ (row, col)
unfolding get_symfunc symfunc_list
symfunc_out n h row col = let e : leb 8 n ≡ true = ground arith in rw e

inverse_id_out : (n : ℕ) → 8 ≤ n → inverse_id (pos n) ≡ pos n
inverse_id_out n h = ground arith

inverse_at :
    (n : ℕ) (row col : ℤ)
    → apply (get_symfunc (inverse_id (pos n))) (get_symfunc (pos n) row col) ≡ (row, col)
unfolding get_symfunc
inverse_at zero row col = refl
inverse_at (suc zero) row col = simp mirror-mirror
inverse_at (suc (suc zero)) row col = simp mirror-mirror
inverse_at (suc (suc (suc zero))) row col = simp mirror-mirror
inverse_at (suc (suc (suc (suc zero)))) row col = simp mirror-mirror
inverse_at (suc (suc (suc (suc (suc zero))))) row col = simp mirror-mirror
inverse_at (suc (suc (suc (suc (suc (suc zero)))))) row col = simp mirror-mirror
inverse_at (suc (suc (suc (suc (suc (suc (suc zero))))))) row col = refl
inverse_at (suc (suc (suc (suc (suc (suc (suc (suc i)))))))) row col =
    let n = suc (suc (suc (suc (suc (suc (suc (suc i))))))) in
    let e : inverse_id (pos n) ≡ pos n = inverse_id_out n (omega arith) in
    let out = symfunc_out n (omega arith) in
    ap₂ (λ m p. apply (get_symfunc m) p) e (out row col) ∙ out row col

-- A symmetry is undone by one of the eight: that of `inverse_id`.
pub get_symfunc-inverse :
    (symid row col : ℤ)
    → apply (get_symfunc (inverse_id symid)) (get_symfunc symid row col) ≡ (row, col)
get_symfunc-inverse (pos n) row col = inverse_at n row col
get_symfunc-inverse (negsuc n) row col = unfold get_symfunc in refl
