-- ===== src/Ini/Save/Tests.antt =====
-- A file of two sections, saved and opened again.
use estar_go.Base.{◌≡◌, refl, true, false, [], ◌∷◌, ok, codes, arith, some, none}
use estar_go.Ini.{
  get_string, write_string, empty_reader, scan_key, key_name, value_of, write_apps, insert_line,
}
use estar_go.Ini.Open.{headers}
use estar_go.Ini.Tests.{small}
use estar_go.Ini.Save.{
  IniFile, writing, reading, save_file, close_file, open_path, write_strings, open_path-close_file,
}

abbrev saved : IniFile
saved = record { reader = small; stream = writing true }

saved_twice : (save_file true saved).0 ≡ false
unfolding save_file
saved_twice = refl

numbered :
    write_strings empty_reader (codes "a") (codes "x" ∷ codes "y" ∷ [])
    ≡ ok (
      false,
      record {
        applines = record { name = codes "[a]"; index = 1 } ∷ [];
        lines = codes "[a]" ∷ codes "0=x" ∷ codes "1=y" ∷ [];
      },
    )
unfolding write_strings write_string estar_go.Base.text_eq estar_go.Base.Int.decimal
    estar_go.Base.Int.digits
numbered = refl

open_path-close_file_example :
    open_path (close_file saved).0 (close_file saved).1
    ≡ (true, record { reader = small; stream = reading true })
unfolding headers estar_go.Ini.index_lines
open_path-close_file_example = open_path-close_file saved refl refl (omega arith)
