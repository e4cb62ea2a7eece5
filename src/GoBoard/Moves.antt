-- ===== src/GoBoard/Moves.antt =====
-- One move: its two characters, whose turn it is, and what a refused move leaves alone.
use estar_go.Base.{
  ℕ, ◌+◌, ◌-◌, ◌*◌, ◌/◌, ◌%◌, ◌<◌, ◌≡◌, refl, ◌⊎◌, inl, inr, Bool-cases, ap, true, false, [], ◌∷◌,
  ◌++◌, Text, arith, length, length-append,
}
use estar_go.Base.Int.{
  ℤ, pos, negsuc, ◌+ℤ◌, quot, rem, to_char, char_value_ascii, -ℤ_pos, *ℤ_pos, +ℤ_pos,
}
use estar_go.GoBoard.{
  Pachi, GoBoard, move_code, decode_move, color_of, apply_move, add_move_to_history, place,
  note_hash, get_color, get_total_moves,
}

-- A point of the board is written as its column from `A` and its row from `a`.
pub move_code_point : (n : ℕ) → n < 361 → move_code (pos n) ≡ (n % 19 + b'A') ∷ (n / 19 + b'a') ∷ []
unfolding move_code rem quot to_char ◌+ℤ◌
move_code_point n h = ground arith

pub decode_move_point : (n : ℕ) → n < 361 → decode_move (n % 19 + b'A') (n / 19 + b'a') ≡ pos n
unfolding decode_move
decode_move_point n h =
    rw
      (
        char_value_ascii (n % 19 + b'A') (omega arith),
        char_value_ascii (n / 19 + b'a') (omega arith),
        -ℤ_pos (n % 19) b'A',
        -ℤ_pos (n / 19) b'a',
        *ℤ_pos (n / 19) 19,
        +ℤ_pos (n % 19) (n / 19 * 19),
      )
      (ap pos (omega arith))

pub length-move_code : (a : ℤ) → length (move_code a) ≡ 2
unfolding move_code
length-move_code a = ground arith

color_of-append :
    (h c : Text) → length h % 2 ≡ 0 → length c ≡ 2 → color_of (h ++ c) ≡ 1 - color_of h
unfolding color_of
color_of-append h c e l = omega (arith, length-append h c)

module _ (pachi : Pachi) where
  b-note_hash : (g : GoBoard pachi) → (note_hash pachi g).b ≡ g.b
  unfolding note_hash
  b-note_hash g = ground arith

  pub history-place :
      (g : GoBoard pachi) (a : ℤ) (c : ℕ) → (place pachi g a c).1.history ≡ g.history
  unfolding place note_hash
  history-place g a c = ground arith

  -- What `place` does with the flag and the boards.
  place-refused :
      (g : GoBoard pachi) (a : ℤ) (c : ℕ)
      → (place pachi g a c).0 ≡ false
      → (place pachi g a c).1.b ≡ g.b
  unfolding place
  place-refused g a c h = ground (arith, b-note_hash g)

  abbrev pub Taken : GoBoard pachi → ℤ → GoBoard pachi → Type 0
  Taken g a g' =
      (g'.history ≡ g.history ++ move_code a)
      × (get_total_moves pachi g' ≡ get_total_moves pachi g + 1)
      × (get_color pachi g' ≡ 1 - get_color pachi g)
      × (length g'.history % 2 ≡ 0)

  abbrev pub Refused : GoBoard pachi → GoBoard pachi → Type 0
  Refused g g' = (g'.b ≡ g.b) × (g'.history ≡ g.history) × (get_color pachi g' ≡ get_color pachi g)

  add_move_to_history-Taken :
      (g k : GoBoard pachi) (a : ℤ)
      → length g.history % 2 ≡ 0
      → k.history ≡ g.history
      → Taken g a (add_move_to_history pachi k a)
  unfolding add_move_to_history get_total_moves get_color
  add_move_to_history-Taken g k a e h = rw h (
    refl,
    omega (arith, length-append g.history (move_code a), length-move_code a),
    color_of-append g.history (move_code a) e (length-move_code a),
    omega (arith, length-append g.history (move_code a), length-move_code a),
  )

  -- A move that is taken appends its two characters, adds one to the moves and passes the turn. One
  -- that is refused leaves pachi's board, the history and the turn as they were. The length of the
  -- history is even before.
  pub apply_move-turn :
      (g : GoBoard pachi) (a : ℤ)
      → length g.history % 2 ≡ 0
      → let (succ, g') = apply_move pachi g a in
        (succ ≡ true) × Taken g a g' ⊎ (succ ≡ false) × Refused g g'
  unfolding apply_move
  apply_move-turn g (pos n) e =
      let (succ, g') = place pachi g (pos n) (get_color pachi g) in
      elim (Bool-cases (place pachi g (pos n) (get_color pachi g)).0) [
        | inl s ↦
            rw s (inl (refl, add_move_to_history-Taken g _ (pos n) e (history-place g (pos n) _)))
        | inr s ↦ rw s (
            inr (
              refl,
              (
                place-refused g (pos n) _ s,
                history-place g (pos n) _,
                unfold get_color in ap color_of (history-place g (pos n) _),
              ),
            ))
      ]
  apply_move-turn g (negsuc n) e = inl (refl, add_move_to_history-Taken g g (negsuc n) e refl)
