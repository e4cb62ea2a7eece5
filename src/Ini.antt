-- ===== src/Ini.antt =====
-- src/utils/INIReader.cpp and include/utils/INIReader.h: the reader of the configuration file.
-- A string is the list of its characters, with no NUL in it. The stream is the text that the file
-- holds. `at(0)` of an empty line throws std::out_of_range, which is `err out_of_range`.
pub mod Open
pub mod Entries
pub mod Values
pub mod Write
pub mod Save
pub mod Tests
use estar_go.Base.{
  ℕ, zero, suc, ◌+◌, ◌≡◌, Bool, true, false, not, ◌&&◌, ◌||◌, List, [], ◌∷◌, ◌++◌, Option, none,
  some, Result, ok, err, out_of_range, bad_index, Text, text_eq, length, drop, map, ltb, ◌==◌,
  if◌then◌else◌, codes, ◌>>=◌,
}

-- `struct AppIndex`
pub record AppIndex : Type 0 where
  pub name : Text
  pub index : ℕ

pub record IniReader : Type 0 where
  pub applines : List AppIndex
  pub lines : List Text

abbrev pub empty_reader : IniReader
empty_reader = record { applines = []; lines = [] }

-- `std::getline` over the whole stream: a last line with no newline counts, an empty one does not.
unfoldable pub get_lines : Text → Text → List Text
get_lines acc [] = if text_eq acc [] then [] else acc ∷ []
get_lines acc (c ∷ cs) = elim (c == 10) [
  | true ↦ acc ∷ get_lines [] cs
  | false ↦ get_lines (acc ++ c ∷ []) cs
]

-- str.size() && str.c_str()[0] == '['
abbrev pub is_header : Text → Bool
is_header [] = false
is_header (c ∷ _) = c == b'['

-- The reading loop of OpenFile, from line `index` on.
unfoldable pub index_lines : ℕ → List Text → List AppIndex
index_lines index [] = []
index_lines index (str ∷ rest) =
    let later = index_lines (suc index) rest in
    if is_header str then record { name = str; index = index } ∷ later else later

-- Close: the reader forgets everything. (What it writes goes to a stream opened for reading.)
unfoldable pub close : IniReader → IniReader
close r = empty_reader

-- OpenFile; `none` is a file that does not open. The result is the value returned and the reader.
unfoldable pub open_file : Option Text → IniReader → Bool × IniReader
open_file none r = (false, r)
open_file (some text) r =
    let read : IniReader = record {
      applines = index_lines 0 (get_lines [] text);
      lines = get_lines [] text;
    } in
    elim read.lines [
      | [] ↦ (false, close read)
      | _ ∷ _ ↦ elim read.applines [ [] ↦ (false, close read) | _ ∷ _ ↦ (true, read) ]
    ]

pub get_group_count : IniReader → ℕ
get_group_count r = length r.applines

-- str = "[" + AppName + "]"
abbrev pub section_header : Text → Text
section_header app = b'[' ∷ app ++ b']' ∷ []

-- substr(0, find('=')): with no '=' the offset is -1, and the substring the whole line.
unfoldable pub key_name : Text → Text
key_name [] = []
key_name (c ∷ cs) = if c == b'=' then [] else c ∷ key_name cs

after_eq : Text → Option Text
after_eq [] = none
after_eq (c ∷ cs) = if c == b'=' then some cs else after_eq cs

-- substr(find('=') + 1): with no '=' the whole line.
pub value_of : Text → Text
unfolding after_eq
value_of line = elim (after_eq line) [ none ↦ line | some v ↦ v ]

-- How the inner loop of GetString ends.
pub data Scan : Type 0 where
  found : Text → Scan
  next_section : Scan
  end_of_file : Scan
  threw : Scan

pub scan_key : Text → List Text → Scan
scan_key key [] = end_of_file
scan_key key (line ∷ rest) =
    let later = scan_key key rest in
    elim line [
      | [] ↦ threw
      | c ∷ cs ↦
          if c == b'['
          then next_section
          else if text_eq key (key_name (c ∷ cs))
          then found (value_of (c ∷ cs))
          else later
    ]

-- The loop over `Applines` of GetString.
pub scan_apps : List Text → Text → Text → Text → List AppIndex → Result Text
scan_apps lines app key default [] = ok default
scan_apps lines app key default (a ∷ rest) =
    let later = scan_apps lines app key default rest in
    if text_eq (section_header app) a.name
    then elim (scan_key key (drop (suc a.index) lines)) [
      | found v ↦ ok v
      | next_section ↦ ok default
      | end_of_file ↦ later
      | threw ↦ err out_of_range
    ]
    else later

abbrev no_lines : IniReader → Bool
no_lines r = length r.lines == 0 || length r.applines == 0

pub get_string : IniReader → Text → Text → Text → Result Text
unfolding scan_apps
get_string r app key default =
    if no_lines r then ok default else scan_apps r.lines app key default r.applines

-- The values of one section from the line behind its header, for GetStrings; `true` if a header
-- ended it.
scan_values : List Text → Result (List Text × Bool)
scan_values [] = ok ([], false)
scan_values (line ∷ rest) =
    let later = scan_values rest in
    elim line [
      | [] ↦ err out_of_range
      | c ∷ cs ↦
          if c == b'[' then ok ([], true) else (later >>= λ p. ok (value_of (c ∷ cs) ∷ p.0, p.1))
    ]

values_apps : List Text → Text → List AppIndex → Result (List Text)
unfolding scan_values
values_apps lines app [] = ok []
values_apps lines app (a ∷ rest) =
    let later = values_apps lines app rest in
    if text_eq (section_header app) a.name
    then (scan_values (drop (suc a.index) lines) >>= λ p.
        if p.1 then ok p.0 else (later >>= λ vs. ok (p.0 ++ vs)))
    else later

pub get_strings : IniReader → Text → Result (List Text)
unfolding values_apps
get_strings r app = if no_lines r then ok [] else values_apps r.lines app r.applines

-- KeyName + "=" + Value
abbrev pub entry : Text → Text → Text
entry key value = key ++ b'=' ∷ value

-- The search of WriteString: `ok (some ls)` has the line replaced, `ok none` found no such key.
pub replace_key : Text → Text → List Text → Result (Option (List Text))
replace_key key value [] = ok none
replace_key key value (line ∷ rest) =
    let later = replace_key key value rest in
    elim line [
      | [] ↦ err out_of_range
      | c ∷ cs ↦
          if c == b'['
          then ok none
          else if text_eq key (key_name (c ∷ cs))
          then ok (some (entry key value ∷ rest))
          else (later >>= λ o. elim o [ none ↦ ok none | some ls ↦ ok (some ((c ∷ cs) ∷ ls)) ])
    ]

-- Lines.insert(Lines.begin() + i, line); behind the end it is undefined.
pub insert_line : ℕ → Text → List Text → Result (List Text)
insert_line zero line lines = ok (line ∷ lines)
insert_line (suc i) line [] = err bad_index
insert_line (suc i) line (l ∷ ls) = insert_line i line ls >>= λ r. ok (l ∷ r)

-- The first i lines, then the changed rest.
pub with_tail : ℕ → List Text → List Text → List Text
with_tail zero lines new = new
with_tail (suc i) [] new = new
with_tail (suc i) (l ∷ ls) new = l ∷ with_tail i ls new

abbrev shift : AppIndex → AppIndex
shift a = record a { index = suc a.index }

-- The loop over `Applines` of WriteString; `none` if no section has the name.
pub write_apps :
    List Text → Text → Text → Text → List AppIndex → Result (Option (List AppIndex × List Text))
unfolding replace_key insert_line with_tail
write_apps lines app key value [] = ok none
write_apps lines app key value (a ∷ rest) =
    let later = write_apps lines app key value rest in
    if text_eq (section_header app) a.name
    then (replace_key key value (drop (suc a.index) lines) >>= λ o. elim o [
      | some ls ↦ ok (some (a ∷ rest, with_tail (suc a.index) lines ls))
      | none ↦
          (insert_line (suc a.index) (entry key value) lines >>= λ ls.
          ok (some (a ∷ map shift rest, ls)))
    ])
    else (later >>= λ o. elim o [ none ↦ ok none | some p ↦ ok (some (a ∷ p.0, p.1)) ])

-- WriteString: the value returned and the reader. A new section's index is `Lines.size()` behind
-- the header just appended.
pub write_string : IniReader → Text → Text → Text → Result (Bool × IniReader)
unfolding write_apps
write_string r app key value = write_apps r.lines app key value r.applines >>= λ o. elim o [
  | some p ↦ ok (true, record { applines = p.0; lines = p.1 })
  | none ↦
      let header = section_header app in
      let lines = r.lines ++ header ∷ [] in
      ok (
        false,
        record {
          applines = r.applines ++ record { name = header; index = length lines } ∷ [];
          lines = lines ++ entry key value ∷ [];
        },
      )
]
