-- ===== src/Gtp/Words.antt =====
-- The words and the buffers of src/Gtp.cpp.
use estar_go.Base.{◌≡◌, sym, ap, ◌∙◌, true, Text, text_eq-eq, length, length-map, map}
use estar_go.Base.Floats.{Floats}
use estar_go.Config.{Config}
use estar_go.GoBoard.{GoBoard}
use estar_go.Player.{Player}
use estar_go.Player.Moves.{same_letters, lower}
use estar_go.Gtp.{Gtp}

-- Texts that differ in case alone have one length.
pub same_letters-length : (a b : Text) → same_letters a b ≡ true → length a ≡ length b
unfolding same_letters
same_letters-length a b h =
    sym (length-map a lower)
    ∙ ap length (text_eq-eq (map lower a) (map lower b) h)
    ∙ length-map b lower
