-- ===== src/Ini/Values.antt =====
-- GetInt, GetFloat and GetBool of src/utils/INIReader.cpp. `atoi` is written out; `atof` is an
-- argument, since the numbers that it gives are the C library's.
use estar_go.Base.{
  ℕ, ◌+◌, ◌*◌, ◌-◌, ◌≡◌, ◌≢◌, [], ◌∷◌, arith, Text, ◌==◌, leb, if◌then◌else◌, Bool, false, not,
  ◌&&◌, ◌||◌, Result, ok, ◌>>=◌, length,
}
use estar_go.Base.Int.{ℤ, pos, negsuc, sub_ℕ}
use estar_go.Ini.{IniReader, get_string}

abbrev pub is_digit : ℕ → Bool
is_digit c = leb b'0' c && leb c b'9'

-- `isspace`
abbrev pub is_space : ℕ → Bool
is_space c = c == 32 || (leb 9 c && leb c 13)

-- The digits at the head of the text, after those read so far.
unfoldable pub read_digits : ℕ → Text → ℕ
read_digits acc [] = acc
read_digits acc (c ∷ cs) =
    let rest = read_digits (acc * 10 + (c - b'0')) cs in if is_digit c then rest else acc

unfoldable pub skip_space : Text → Text
skip_space [] = []
skip_space (c ∷ cs) = if is_space c then skip_space cs else c ∷ cs

-- A value outside `int` is undefined there; the model gives the number.
unfoldable pub atoi : Text → ℤ
unfolding read_digits skip_space
atoi s = elim (skip_space s) [
  | [] ↦ pos 0
  | c ∷ cs ↦
      if c == b'-'
      then sub_ℕ 0 (read_digits 0 cs)
      else if c == b'+'
      then pos (read_digits 0 cs)
      else pos (read_digits 0 (c ∷ cs))
]

pub get_int : IniReader → Text → Text → ℤ → Result ℤ
get_int r app key default =
    get_string r app key [] >>= λ str. ok (if length str == 0 then default else atoi str)

abbrev pub is_zero : ℤ → Bool
is_zero (pos n) = n == 0
is_zero (negsuc n) = false

pub get_bool : IniReader → Text → Text → Bool → Result Bool
get_bool r app key default = get_string r app key [] >>= λ str.
    ok (if length str == 0 then default else not (is_zero (atoi str)))

pub get_float {ℓ} : {F : Type ℓ} → (Text → F) → IniReader → Text → Text → F → Result F
get_float atof r app key default =
    get_string r app key [] >>= λ str. ok (if length str == 0 then default else atof str)

-- Anything that `atoi` cannot start on: a word such as `true`.
abbrev pub IsWord : Text → Type 0
IsWord [] = ⊥
IsWord (c ∷ cs) = (is_space c ≡ false) × (c ≢ b'-') × (c ≢ b'+') × (is_digit c ≡ false)

atoi_word : (s : Text) → IsWord s → atoi s ≡ pos 0
unfolding atoi
atoi_word [] h = absurd h
atoi_word (c ∷ cs) h = ground arith

-- GetBool reads every word as false, `true` as well.
pub get_bool_word :
    (r : IniReader) (app key word : Text) (default : Bool)
    → IsWord word
    → get_string r app key [] ≡ ok word
    → get_bool r app key default ≡ ok false
unfolding get_bool
get_bool_word r app key [] default w h = absurd w
get_bool_word r app key (c ∷ cs) default w h = ground (arith, atoi_word (c ∷ cs) w)

-- GetInt gives the default exactly when there is no text for the key.
pub get_int_default :
    (r : IniReader) (app key : Text) (default : ℤ)
    → get_string r app key [] ≡ ok []
    → get_int r app key default ≡ ok default
unfolding get_int
get_int_default r app key default h = rw (h, get_int)
