-- ===== src/Player/Moves/Names.antt =====
-- The names of points in play and gen_apply_move of src/MCTSPlayer.cpp.
use estar_go.Base.{
  ◌==◌, ℕ, zero, suc, ◌≡◌, ◌<◌, refl, ◌⊎◌, inl, inr, Bool, true, false, ◌&&◌, [], ◌∷◌, Text, codes,
  arith, sym, subst, not, text_eq,
}
use estar_go.Ini.Values.{atoi}
use estar_go.Base.Int.{
  decimal, digits, ℤ, pos, ◌+ℤ◌, ◌*ℤ◌, ◌-ℤ◌, quot, to_char, rem, eqb_ℤ, eqb_ℤ-eq,
}
use estar_go.Player.Moves.{move_name, named_move, same_letters}

-- What play reads from a name.
abbrev pub read_move : Text → ℤ
read_move [] = pos 0
read_move (c ∷ cs) = named_move c cs

-- The name begins with the letter I.
abbrev pub is_under_i : Text → Bool
is_under_i [] = false
is_under_i (c ∷ cs) = c == b'I'

abbrev is_point : Text → Bool
is_point s = not (same_letters s (codes "resign")) && not (is_under_i s)

abbrev is_kept : ℕ → Bool
is_kept a =
    let s = move_name (pos a) in
    eqb_ℤ (read_move s) (pos a) && not (same_letters s (codes "pass")) && is_point s

all_kept : ℕ → Bool
all_kept zero = true
all_kept (suc a) = is_kept a && all_kept a

last_or_less : (n a : ℕ) → a < suc n → (a ≡ n) ⊎ (a < n)
last_or_less n a h = ground arith

is_false : (b : Bool) → not b ≡ true → b ≡ false
is_false b h = ground arith

both : (a b : Bool) → (a && b) ≡ true → (a ≡ true) × (b ≡ true)
both a b h = ground arith

all_kept-at : (n a : ℕ) → all_kept n ≡ true → a < n → is_kept a ≡ true
unfolding all_kept
all_kept-at zero a h l = absurd (omega arith)
all_kept-at (suc n) a h l = elim (last_or_less n a l) [
  | inl e ↦ subst (λ (x : ℕ). is_kept x ≡ true) (sym e) (both (is_kept n) (all_kept n) h).0
  | inr k ↦ all_kept-at n a (both (is_kept n) (all_kept n) h).1 k
]

every_kept : all_kept 361 ≡ true
unfolding all_kept move_name named_move ◌+ℤ◌ ◌*ℤ◌ ◌-ℤ◌ atoi decimal quot digits to_char rem
    same_letters text_eq
every_kept = refl

-- play reads the name that gen_apply_move gives to a point of the board as this point, and as no pass and
-- no resignation. No name has the letter I.
pub named_move-move_name :
    (a : ℕ)
    → a < 361
    → (read_move (move_name (pos a)) ≡ pos a)
      × (same_letters (move_name (pos a)) (codes "pass") ≡ false)
      × (same_letters (move_name (pos a)) (codes "resign") ≡ false)
      × (is_under_i (move_name (pos a)) ≡ false)
named_move-move_name a h =
    let k = all_kept-at 361 a every_kept h in
    let s = move_name (pos a) in
    let (x, y) =
      both (eqb_ℤ (read_move s) (pos a) && not (same_letters s (codes "pass"))) (is_point s) k in
    let (u, v) = both (eqb_ℤ (read_move s) (pos a)) (not (same_letters s (codes "pass"))) x in
    let (r, i) = both (not (same_letters s (codes "resign"))) (not (is_under_i s)) y in
    (eqb_ℤ-eq (read_move s) (pos a) u, is_false _ v, is_false _ r, is_false _ i)
