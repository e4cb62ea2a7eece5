-- ===== src/GoBoard/Window.antt =====
-- The window of the last eight position hashes, and the repetition flag.
use estar_go.Base.{
  ℕ, ◌≡◌, Bool-cases, true, false, List, [], ◌∷◌, ◌++◌, arith, length, length-append, inl, inr,
}
use estar_go.Base.Int.{ℤ, pos, ◌+ℤ◌, rem, quot}
use estar_go.GoBoard.{
  Pachi, GoBoard, check_repetition, store_hash, pop_front, note_hash, place, stone_of, get_color,
  apply_move, add_move_to_history,
}

-- One hash goes in at the end, one goes out at the front.
store_hash-length : (cur : ℕ) (hs : List ℕ) → length hs ≡ 8 → length (store_hash cur hs) ≡ 8
unfolding store_hash
store_hash-length cur [] h = absurd (omega arith)
store_hash-length cur (x ∷ xs) h = ground (arith, length-append xs (cur ∷ []))

check_repetition-append : (cur : ℕ) (hs : List ℕ) → check_repetition cur (hs ++ cur ∷ []) ≡ true
unfolding check_repetition
check_repetition-append cur [] = ground arith
check_repetition-append cur (h ∷ hs) = ground (arith, check_repetition-append cur hs)

check_repetition-store_hash :
    (cur : ℕ) (hs : List ℕ) → check_repetition cur (store_hash cur hs) ≡ true
unfolding store_hash
check_repetition-store_hash cur hs =
    ground (arith, check_repetition-append cur hs, check_repetition-append cur (pop_front hs))

module _ (pachi : Pachi) where
  open pachi use {hash, play, is_valid_move}

  abbrev pub InWindow : GoBoard pachi → Type 0
  InWindow g = check_repetition (hash g.b) g.hash8 ≡ true

  note_hash-InWindow :
      (g : GoBoard pachi)
      → length g.hash8 ≡ 8
      → (length (note_hash pachi g).hash8 ≡ 8) × InWindow (note_hash pachi g)
  unfolding note_hash
  note_hash-InWindow g h =
      ground (
        arith,
        store_hash-length (hash g.b) g.hash8,
        check_repetition-store_hash (hash g.b) g.hash8,
      )

  place-InWindow :
      (g : GoBoard pachi) (a : ℤ) (c : ℕ)
      → length g.hash8 ≡ 8
      → (length (place pachi g a c).1.hash8 ≡ 8) × InWindow (place pachi g a c).1
  unfolding place
  place-InWindow g a c h = elim (Bool-cases (is_valid_move g.b (stone_of pachi c) x y)) [
    | inl v ↦ rw v (note_hash-InWindow (record g { b = play g.b (stone_of pachi c) x y }) h)
    | inr v ↦ rw v (note_hash-InWindow g h)
  ]
    where
      x : ℤ
      x = rem a 19 +ℤ pos 1

      y : ℤ
      y = quot a 19 +ℤ pos 1

  -- The state of a board that has come from the constructor: eight hashes, the position's own among
  -- them.
  abbrev pub Windowed : GoBoard pachi → Type 0
  Windowed g = (length g.hash8 ≡ 8) × InWindow g

  -- Any stone that is tried, taken or refused, leaves eight hashes with that of the position.
  pub apply_move-Windowed :
      (g : GoBoard pachi) (n : ℕ) → length g.hash8 ≡ 8 → Windowed (apply_move pachi g (pos n)).1
  unfolding apply_move add_move_to_history
  apply_move-Windowed g n h = ground (arith, place-InWindow g (pos n) (get_color pachi g) h)

  -- A refused stone on a board whose position's hash is in the window of eight changes the repetition
  -- flag, which it sets, and nothing else.
  pub refused_sets_repetition :
      (g : GoBoard pachi) (n : ℕ)
      → Windowed g
      → (apply_move pachi g (pos n)).0 ≡ false
      → (apply_move pachi g (pos n)).1 ≡ record g { board_repetition = true }
  unfolding apply_move place note_hash
  refused_sets_repetition g n (l, w) h = ground arith
