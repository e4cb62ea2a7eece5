-- ===== src/Symmetry/History.antt =====
-- The history of a game under a symmetry.
use estar_go.Base.{
  ℕ, zero, suc, ◌+◌, ◌-◌, ◌*◌, ◌≤◌, ◌<◌, ◌≡◌, ◌≢◌, refl, sym, ap, ap₂, ◌∙◌, ◌⊎◌, inl, inr, false,
  [], ◌∷◌, Text, arith, ◌==◌, length,
}
use estar_go.Base.Int.{
  ℤ, pos, ◌+ℤ◌, ◌-ℤ◌, to_char, char_value, to_char_ascii, char_value_ascii, -ℤ_pos, +ℤ_pos,
}
use estar_go.Symmetry.{Symfunc, mirror, get_symfunc, rotate_move, rotate_history, symmetry_history}
use estar_go.Symmetry.Inverse.{apply, inverse_id, get_symfunc-inverse, get_symfunc-OnBoard}

-- The two characters of a pass, or of a point of the board.
abbrev pub IsPlay : ℕ → ℕ → Type 0
IsPlay hi lo =
    (hi ≡ b'Z') × (lo ≡ b'P') ⊎ ((b'A' ≤ hi) × (hi < b'A' + 19) × (b'a' ≤ lo) × (lo < b'a' + 19))

-- A history of passes and points.
abbrev pub IsGame : Text → Type 0
IsGame [] = Unit {0}
IsGame (hi ∷ []) = ⊥
IsGame (hi ∷ lo ∷ rest) = IsPlay hi lo × IsGame rest

char_point : (n k : ℕ) → n + k < 128 → char_value (n + k) -ℤ pos k ≡ pos n
char_point n k h = rw (char_value_ascii (n + k) h, -ℤ_pos n k)

char_back : (n k : ℕ) → n + k < 128 → to_char (pos n +ℤ pos k) ≡ n + k
char_back n k h = rw (+ℤ_pos n k) (to_char_ascii (n + k) (omega arith))

-- A point, turned.
rotate_move_point :
    (f : Symfunc) (r c r' c' : ℕ)
    → c < 19
    → r < 19
    → c' < 19
    → r' < 19
    → f (pos r) (pos c) ≡ (pos r', pos c')
    → rotate_move f (c + b'A') (r + b'a') ≡ (c' + b'A') ∷ (r' + b'a') ∷ []
unfolding rotate_move
rotate_move_point f r c r' c' hc hr hc' hr' e =
    let ne : ((c + b'A') == b'Z') ≡ false = ground arith in
    rw (
      char_point c b'A' (omega arith),
      char_point r b'a' (omega arith),
      e,
      ne,
      char_back c' b'A' (omega arith),
      char_back r' b'a' (omega arith),
    )

rotate_move_pass : (f : Symfunc) → rotate_move f b'Z' b'P' ≡ b'Z' ∷ b'P' ∷ []
unfolding rotate_move
rotate_move_pass f = refl

-- One move under a symmetry, as a list of two characters that is a play again, with the way back.
record Turned (f g : Symfunc) (hi lo : ℕ) : Type 0 where
  hi' : ℕ
  lo' : ℕ
  turned : rotate_move f hi lo ≡ hi' ∷ lo' ∷ []
  play : IsPlay hi' lo'
  back : rotate_move g hi' lo' ≡ hi ∷ lo ∷ []

rotate_move-Turned :
    (symid : ℤ) (hi lo : ℕ)
    → IsPlay hi lo
    → Turned (get_symfunc symid) (get_symfunc (inverse_id symid)) hi lo
rotate_move-Turned symid hi lo (inl (p, q)) = record {
  hi' = b'Z';
  lo' = b'P';
  turned = ap₂ (rotate_move _) p q ∙ rotate_move_pass _;
  play = inl (refl, refl);
  back = rotate_move_pass _ ∙ ap₂ (λ (a b : ℕ). a ∷ b ∷ []) (sym p) (sym q);
}
rotate_move-Turned symid hi lo (inr (p, q, u, v)) =
    let c = hi - b'A' in
    let r = lo - b'a' in
    let ec : c + b'A' ≡ hi = omega arith in
    let er : r + b'a' ≡ lo = omega arith in
    let hc : c < 19 = omega arith in
    let hr : r < 19 = omega arith in
    let (r', c', hr', hc', e) = get_symfunc-OnBoard symid r c hr hc in
    let inv : get_symfunc (inverse_id symid) (pos r') (pos c') ≡ (pos r, pos c) =
      ap (apply (get_symfunc (inverse_id symid))) (sym e)
      ∙ get_symfunc-inverse symid (pos r) (pos c) in
    record {
      hi' = c' + b'A';
      lo' = r' + b'a';
      turned =
          ap₂ (rotate_move (get_symfunc symid)) (sym ec) (sym er)
          ∙ rotate_move_point (get_symfunc symid) r c r' c' hc hr hc' hr' e;
      play = inr (omega arith, omega arith, omega arith, omega arith);
      back =
          rotate_move_point (get_symfunc (inverse_id symid)) r' c' r c hc' hr' hc hr inv
          ∙ ap₂ (λ (a b : ℕ). a ∷ b ∷ []) ec er;
    }

rotate_history-inverse :
    (symid : ℤ) (h : Text)
    → IsGame h
    → rotate_history (get_symfunc (inverse_id symid)) (rotate_history (get_symfunc symid) h) ≡ h
unfolding rotate_history
rotate_history-inverse symid [] w = refl
rotate_history-inverse symid (hi ∷ []) w = absurd w
rotate_history-inverse symid (hi ∷ lo ∷ rest) (p, w) =
    let t = rotate_move-Turned symid hi lo p in
    rw (t.turned, rotate_history, t.back, rotate_history-inverse symid rest w)

-- A history of passes and points is turned back by the inverse symmetry.
pub symmetry_history-inverse :
    (symid : ℤ) (h : Text)
    → IsGame h
    → symmetry_history (symmetry_history h symid) (inverse_id symid) ≡ h
unfolding symmetry_history
symmetry_history-inverse symid h w = rotate_history-inverse symid h w

rotate_history-IsGame :
    (symid : ℤ) (h : Text)
    → IsGame h
    → IsGame (rotate_history (get_symfunc symid) h)
      × (length (rotate_history (get_symfunc symid) h) ≡ length h)
unfolding rotate_history
rotate_history-IsGame symid [] w = (tt, refl)
rotate_history-IsGame symid (hi ∷ []) w = absurd w
rotate_history-IsGame symid (hi ∷ lo ∷ rest) (p, w) =
    let t = rotate_move-Turned symid hi lo p in
    let (v, l) = rotate_history-IsGame symid rest w in rw t.turned ((t.play, v), omega arith)

-- Turned, such a history is one of passes and points again, of the same length.
pub symmetry_history-IsGame :
    (symid : ℤ) (h : Text)
    → IsGame h
    → IsGame (symmetry_history h symid) × (length (symmetry_history h symid) ≡ length h)
unfolding symmetry_history
symmetry_history-IsGame symid h w = rotate_history-IsGame symid h w

abbrev pub resign_code : Text
resign_code = b'Z' ∷ b'R' ∷ []

-- Tells the two codes apart as one number.
abbrev sum_codes : Text → ℕ
sum_codes [] = 0
sum_codes (c ∷ cs) = c + 2 * sum_codes cs

resign_at : (n : ℕ) → suc n < 8 → symmetry_history resign_code (pos (suc n)) ≢ resign_code
unfolding symmetry_history get_symfunc rotate_move mirror ◌+ℤ◌ ◌-ℤ◌ to_char
resign_at zero h e = omega (arith, ap sum_codes e)
resign_at (suc zero) h e = omega (arith, ap sum_codes e)
resign_at (suc (suc zero)) h e = omega (arith, ap sum_codes e)
resign_at (suc (suc (suc zero))) h e = omega (arith, ap sum_codes e)
resign_at (suc (suc (suc (suc zero)))) h e = omega (arith, ap sum_codes e)
resign_at (suc (suc (suc (suc (suc zero))))) h e = omega (arith, ap sum_codes e)
resign_at (suc (suc (suc (suc (suc (suc zero)))))) h e = omega (arith, ap sum_codes e)
resign_at (suc (suc (suc (suc (suc (suc (suc n))))))) h e = absurd (omega arith)

-- The code of a resignation is not kept: each symmetry but the identity makes another code of it.
pub symmetry_history_resign :
    (n : ℕ) → 0 < n → n < 8 → symmetry_history resign_code (pos n) ≢ resign_code
symmetry_history_resign zero h k = absurd (omega arith)
symmetry_history_resign (suc n) h k = resign_at n k
