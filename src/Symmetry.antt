-- ===== src/Symmetry.antt =====
-- include/Symmetry.h: the eight symmetries of the board, and the history of a game under one.
-- A point is its row and column; both are `int`, so that a code outside the board goes on as a
-- number.
pub mod Inverse
pub mod History
mod Tests
use estar_go.Base.{
  ℕ, ◌+◌, Bool, true, false, ◌&&◌, List, [], ◌∷◌, ◌++◌, Text, if◌then◌else◌, ◌==◌, get_or, length,
  leb,
}
use estar_go.Base.Int.{ℤ, pos, negsuc, ◌+ℤ◌, ◌-ℤ◌, to_char, char_value}

abbrev pub Point : Type 0
Point = ℤ × ℤ

abbrev pub Symfunc : Type 0
Symfunc = ℤ → ℤ → Point

-- 18 - row
unfoldable pub mirror : ℤ → ℤ
mirror n = pos 18 -ℤ n

pub clk0 : Symfunc
clk0 row col = (row, col)

pub revert_clk0 : Symfunc
revert_clk0 row col = (row, col)

pub clk90 : Symfunc
clk90 row col = (col, mirror row)

pub revert_clk90 : Symfunc
revert_clk90 row col = (mirror col, row)

pub clk180 : Symfunc
clk180 row col = (mirror row, mirror col)

pub revert_clk180 : Symfunc
revert_clk180 row col = (mirror row, mirror col)

pub clk270 : Symfunc
clk270 row col = (mirror col, row)

pub revert_clk270 : Symfunc
revert_clk270 row col = (col, mirror row)

pub mclk0 : Symfunc
mclk0 row col = (row, mirror col)

pub revert_mclk0 : Symfunc
revert_mclk0 row col = (row, mirror col)

pub mclk90 : Symfunc
mclk90 row col = (mirror col, mirror row)

pub revert_mclk90 : Symfunc
revert_mclk90 row col = (mirror col, mirror row)

pub mclk180 : Symfunc
mclk180 row col = (mirror row, col)

pub revert_mclk180 : Symfunc
revert_mclk180 row col = (mirror row, col)

pub mclk270 : Symfunc
mclk270 row col = (col, row)

pub revert_mclk270 : Symfunc
revert_mclk270 row col = (col, row)

-- The constructor's two lists.
pub symfunc_list : List Symfunc
unfolding clk0 clk90 clk180 clk270 mclk0 mclk90 mclk180 mclk270
symfunc_list = clk0 ∷ clk90 ∷ clk180 ∷ clk270 ∷ mclk0 ∷ mclk90 ∷ mclk180 ∷ mclk270 ∷ []

pub revert_symfunc_list : List Symfunc
unfolding revert_clk0 revert_clk90 revert_clk180 revert_clk270 revert_mclk0 revert_mclk90
    revert_mclk180 revert_mclk270
revert_symfunc_list =
    revert_clk0 ∷ revert_clk90 ∷ revert_clk180 ∷ revert_clk270 ∷ revert_mclk0 ∷ revert_mclk90
    ∷ revert_mclk180 ∷ revert_mclk270 ∷ []

-- An id outside 0 to 7 is taken for 0.
abbrev pub checked_id : ℤ → List Symfunc → ℕ
checked_id (pos n) fs = if leb (length fs) n then 0 else n
checked_id (negsuc n) fs = 0

pub get_symfunc : ℤ → Symfunc
unfolding symfunc_list
get_symfunc symid = get_or symfunc_list (checked_id symid symfunc_list) clk0

pub get_revert_symfunc : ℤ → Symfunc
unfolding revert_symfunc_list
get_revert_symfunc symid =
    get_or revert_symfunc_list (checked_id symid revert_symfunc_list) revert_clk0

-- The two characters of a move under a symmetry: a pass stays, anything else is turned as a point.
pub rotate_move : Symfunc → ℕ → ℕ → Text
rotate_move rotate hi lo =
    let col = char_value hi -ℤ pos b'A' in
    let row = char_value lo -ℤ pos b'a' in
    let (new_row, new_col) = rotate row col in
    if hi == b'Z' && lo == b'P'
    then b'Z' ∷ b'P' ∷ []
    else to_char (new_col +ℤ pos b'A') ∷ to_char (new_row +ℤ pos b'a') ∷ []

-- The loop of symmetry_history, over the pairs of characters.
pub rotate_history : Symfunc → Text → Text
unfolding rotate_move
rotate_history rotate [] = []
rotate_history rotate (hi ∷ []) = []
rotate_history rotate (hi ∷ lo ∷ rest) = rotate_move rotate hi lo ++ rotate_history rotate rest

pub symmetry_history : Text → ℤ → Text
unfolding rotate_history get_symfunc
symmetry_history history symid = rotate_history (get_symfunc symid) history
