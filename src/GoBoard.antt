-- ===== src/GoBoard.antt =====
-- include/GoBoard.h and src/GoBoard.cpp: the wrapper of pachi's board, with the game's history and
-- the window of the last eight position hashes. pachi itself is the parameter `Pachi`.
pub mod Moves
pub mod Replay
pub mod Window
mod Tests
use estar_go.Base.{
  ℕ, suc, ◌+◌, ◌-◌, ◌*◌, ◌/◌, ◌%◌, Bool, true, false, ◌||◌, List, [], ◌∷◌, ◌++◌, Text, Result, ok,
  err, failed_assert, ◌>>=◌, if◌then◌else◌, ◌==◌, ltb, length, replicate,
}
use estar_go.Base.Int.{ℤ, pos, negsuc, ◌+ℤ◌, ◌-ℤ◌, ◌*ℤ◌, eqb_ℤ, quot, rem, to_char, char_value}

pub data Stone : Type 0 where
  black white : Stone

-- What the wrapper calls of pachi: a new board of size 19 under the Chinese rules with a komi,
-- board_clear, the assignment of the komi, board_is_valid_move and board_play at a stone's x and y,
-- the hash, and board_official_score with its sign.
pub record Pachi : Type 1 where
  pub Board : Type 0
  pub Score : Type 0
  pub new_board : Score → Board
  pub clear : Board → Board
  pub put_komi : Score → Board → Board
  pub is_valid_move : Board → Stone → ℤ → ℤ → Bool
  pub play : Board → Stone → ℤ → ℤ → Board
  pub hash : Board → ℕ
  pub official_score : Board → Score
  pub negate : Score → Score
  pub is_nonnegative : Score → Bool

abbrev pub pos_pass : ℤ
pos_pass = negsuc 0

abbrev pub pos_resign : ℤ
pos_resign = negsuc 1

-- The two characters that add_move_to_history appends.
pub move_code : ℤ → Text
move_code p =
    if eqb_ℤ pos_pass p
    then b'Z' ∷ b'P' ∷ []
    else if eqb_ℤ pos_resign p
    then b'Z' ∷ b'R' ∷ []
    else to_char (rem p 19 +ℤ pos b'A') ∷ to_char (quot p 19 +ℤ pos b'a') ∷ []

-- pos = (hi - 'A') + (lo - 'a') * 19
pub decode_move : ℕ → ℕ → ℤ
decode_move hi lo = char_value hi -ℤ pos b'A' +ℤ (char_value lo -ℤ pos b'a') *ℤ pos 19

-- check_repetition
pub check_repetition : ℕ → List ℕ → Bool
check_repetition cur [] = false
check_repetition cur (h ∷ hs) = h == cur || check_repetition cur hs

pop_front : List ℕ → List ℕ
pop_front [] = []
pop_front (h ∷ hs) = hs

pub store_hash : ℕ → List ℕ → List ℕ
unfolding pop_front
store_hash cur hs = if ltb (length hs) 8 then hs ++ cur ∷ [] else pop_front hs ++ cur ∷ []

-- (history.length() % 4) >> 1
pub color_of : Text → ℕ
color_of history = length history % 4 / 2

module _ (pachi : Pachi) where
  open pachi use {
    Board, Score, new_board, clear, put_komi, is_valid_move, play, hash, official_score, negate,
    is_nonnegative,
  }

  pub record GoBoard : Type 0 where
    pub b : Board
    pub history : Text
    pub hash8 : List ℕ
    pub board_repetition : Bool

  -- The constructor: `hash8.resize(8)` makes eight zeros.
  unfoldable pub new_go_board : Score → GoBoard
  new_go_board komi = record {
    b = new_board komi;
    history = [];
    hash8 = replicate 8 0;
    board_repetition = false;
  }

  pub reset : GoBoard → GoBoard
  reset g = record g { b = clear g.b; history = [] }

  pub set_komi : GoBoard → Score → GoBoard
  set_komi g komi = record g { b = put_komi komi g.b }

  -- 0 is black, 1 is white.
  pub get_color : GoBoard → ℕ
  unfolding color_of
  get_color g = color_of g.history

  pub get_score_black : GoBoard → Score
  get_score_black g = negate (official_score g.b)

  pub is_pass_safe : GoBoard → Bool
  unfolding get_color
  is_pass_safe g =
      let score = official_score g.b in
      if get_color g == 0 then is_nonnegative (negate score) else is_nonnegative score

  unfoldable pub get_total_moves : GoBoard → ℕ
  get_total_moves g = length g.history / 2

  abbrev pub stone_of : ℕ → Stone
  stone_of color = if color == 0 then Stone.black else Stone.white

  -- The part of _apply_move behind the attempt: look the hash up, then store it or set the flag.
  pub note_hash : GoBoard → GoBoard
  unfolding check_repetition store_hash
  note_hash g =
      let cur = hash g.b in
      if check_repetition cur g.hash8
      then record g { board_repetition = true }
      else record g { hash8 = store_hash cur g.hash8 }

  -- _apply_move
  pub place : GoBoard → ℤ → ℕ → Bool × GoBoard
  place g action color =
      let x = rem action 19 +ℤ pos 1 in
      let y = quot action 19 +ℤ pos 1 in
      let m = stone_of color in
      if is_valid_move g.b m x y
      then (true, note_hash (record g { b = play g.b m x y }))
      else (false, note_hash g)

  pub add_move_to_history : GoBoard → ℤ → GoBoard
  unfolding move_code
  add_move_to_history g p = record g { history = g.history ++ move_code p }

  pub apply_move : GoBoard → ℤ → Bool × GoBoard
  unfolding place get_color add_move_to_history
  apply_move g (pos n) =
      let (succ, g') = place g (pos n) (get_color g) in
      if succ then (true, add_move_to_history g' (pos n)) else (false, g')
  apply_move g (negsuc n) = (true, add_move_to_history g (negsuc n))

  -- The loop of apply_history, over the pairs of characters from number `step` on.
  pub replay : ℕ → Text → GoBoard → Result GoBoard
  unfolding place decode_move
  replay step [] g = ok g
  replay step (hi ∷ []) g = ok g
  replay step (hi ∷ lo ∷ rest) g =
      let skipped = replay (suc step) rest g in
      let (succ, g') = place g (decode_move hi lo) (step % 2) in
      let played = replay (suc step) rest g' in
      if hi == b'Z' then skipped else if succ then played else err failed_assert

  pub apply_history : GoBoard → Text → Result GoBoard
  unfolding replay
  apply_history g history =
      if length history % 2 == 0
      then replay 0 history (record g { history = history })
      else err failed_assert
