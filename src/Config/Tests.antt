-- ===== src/Config/Tests.antt =====
-- Sinit on small files.
use estar_go.Base.{
  ◌≡◌, refl, ◌∷◌, ◌++◌, some, none, err, exited, out_of_range, Text, text_eq, codes, arith,
}
use estar_go.Base.Floats.{int_floats}
use estar_go.Ini.{open_file, get_lines, index_lines, key_name}
use estar_go.Ini.Open.{headers, find_section}
use estar_go.Config.{sinit, sinit_no_header, sinit_blank}

sinit_no_header_test :
    (sinit int_floats (some (codes "type=a")) ≡ err exited) × (sinit int_floats none ≡ err exited)
unfolding headers get_lines text_eq
sinit_no_header_test = sinit_no_header int_floats (codes "type=a") refl

-- The section Model of conf/conf.ini: its key has a blank behind it, and a blank line follows.
abbrev model_text : Text
model_text = codes "[Model]" ++ (10 ∷ codes "type = 1") ++ (10 ∷ 10 ∷ codes "[MCTS]")

sinit_blank_test : sinit int_floats (some model_text) ≡ err out_of_range
unfolding open_file get_lines index_lines text_eq key_name find_section
sinit_blank_test =
    sinit_blank int_floats model_text _ (record { name = codes "[Model]"; index = 0 }) refl refl
      ((λ e. omega arith), refl, tt)
