-- ===== src/Ini/Tests.antt =====
-- The reader on small files, among them the head of conf/conf.ini.
use estar_go.Base.{
  ◌≡◌, refl, [], ◌∷◌, ◌++◌, some, arith, Text, text_eq, codes, true, false, ok, err, out_of_range,
}
use estar_go.Base.Int.{pos, negsuc}
use estar_go.Ini.{
  IniReader, empty_reader, open_file, get_lines, index_lines, get_string, get_strings, write_string,
  key_name, value_of, scan_key,
}
use estar_go.Ini.Open.{IsIndexed, open_file-IsIndexed, get_string_blank, find_section}
use estar_go.Ini.Write.{get_string-write_string_new}
use estar_go.Ini.Values.{atoi, get_bool, get_bool_word}

abbrev newline : Text
newline = 10 ∷ []

-- [a], k=1, [b], x=true
abbrev small_text : Text
small_text =
    codes "[a]" ++ newline ++ codes "k=1" ++ newline ++ codes "[b]" ++ newline ++ codes "x=true"

abbrev pub small : IniReader
small = record {
  applines =
      record { name = codes "[a]"; index = 0 } ∷ record { name = codes "[b]"; index = 2 } ∷ [];
  lines = codes "[a]" ∷ codes "k=1" ∷ codes "[b]" ∷ codes "x=true" ∷ [];
}

open_small : open_file (some small_text) empty_reader ≡ (true, small)
unfolding open_file get_lines index_lines text_eq
open_small = refl

read_small : get_string small (codes "a") (codes "k") (codes "z") ≡ ok (codes "1")
unfolding get_string scan_key text_eq key_name value_of
read_small = refl

read_default : get_string small (codes "a") (codes "x") (codes "z") ≡ ok (codes "z")
unfolding get_string scan_key text_eq key_name value_of
read_default = refl

all_of_b : get_strings small (codes "b") ≡ ok (codes "true" ∷ [])
unfolding get_strings text_eq value_of
all_of_b = refl

numbers :
    (atoi (codes " -12x") ≡ negsuc 11) × (atoi (codes "+7") ≡ pos 7) × (atoi (codes "true") ≡ pos 0)
unfolding atoi
numbers = (refl, refl, refl)

open_file-IsIndexed_example : IsIndexed small
open_file-IsIndexed_example = open_file-IsIndexed small_text empty_reader small open_small

-- The head of conf/conf.ini: the section GTP ends with a blank line.
abbrev shipped : IniReader
shipped = record {
  applines = record { name = codes "[GTP]"; index = 0 } ∷ [];
  lines = codes "[GTP]" ∷ codes "version = 1.0.0" ∷ [] ∷ codes "[Model]" ∷ [];
}

get_string_blank_test :
    get_string shipped (codes "GTP") (codes "version") (codes "1.0") ≡ err out_of_range
unfolding text_eq key_name find_section
get_string_blank_test =
    get_string_blank shipped (codes "GTP") (codes "version") (codes "1.0")
      (record { name = codes "[GTP]"; index = 0 }) refl ((λ e. omega arith), refl, tt)

-- k is changed in place.
abbrev changed : IniReader
changed = record small { lines = codes "[a]" ∷ codes "k=22" ∷ codes "[b]" ∷ codes "x=true" ∷ [] }

abbrev extended : IniReader
extended = record {
  applines =
      record { name = codes "[a]"; index = 0 }
      ∷ record { name = codes "[b]"; index = 2 }
      ∷ record { name = codes "[c]"; index = 5 }
      ∷ [];
  lines = codes "[a]" ∷ codes "k=1" ∷ codes "[b]" ∷ codes "x=true" ∷ codes "[c]" ∷ codes "k=5" ∷ [];
}

get_string-write_string_new_example : get_string extended (codes "c") (codes "k") [] ≡ ok []
unfolding write_string text_eq key_name
get_string-write_string_new_example =
    get_string-write_string_new small (codes "c") (codes "k") (codes "5") [] extended refl

get_bool_word_test : get_bool small (codes "b") (codes "x") true ≡ ok false
unfolding get_string scan_key text_eq key_name value_of
get_bool_word_test =
    get_bool_word small (codes "b") (codes "x") (codes "true") true
      (refl, (λ e. omega arith), (λ e. omega arith), refl) refl
