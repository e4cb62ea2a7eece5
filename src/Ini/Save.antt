-- ===== src/Ini/Save.antt =====
-- The stream of src/utils/INIReader.cpp: SaveFile, Close and OpenFile on it, and WriteStrings.
mod Tests
use estar_go.Base.{
  ◌<◌, subst, ℕ, zero, suc, ◌+◌, ◌≡◌, ◌≢◌, refl, sym, ap, ap₂, ◌∙◌, ◌⊎◌, inl, inr, Bool, true,
  false, not, ◌&&◌, List, [], ◌∷◌, ◌++◌, append-nil, append_assoc, Option, none, some, Result, ok,
  err, Text, ◌>>=◌, if◌then◌else◌, ◌==◌, Bool-cases, arith, length, text_eq,
}
use estar_go.Base.Int.{decimal, pos}
use estar_go.Ini.{
  AppIndex, IniReader, empty_reader, get_lines, is_header, index_lines, close, open_file,
  write_string,
}
use estar_go.Ini.Open.{headers, length-index_lines}

-- The file stream: closed, or open on a file to read or to write, with or without the failure bit.
pub data Stream : Type 0 where
  closed : Stream
  reading writing : Bool → Stream

pub record IniFile : Type 0 where
  pub reader : IniReader
  pub stream : Stream

-- open on a stream: one that is open already stays so and fails. `mode` is the stream that it becomes.
pub open_stream : Bool → Stream → Stream → Bool × Stream
open_stream exists mode closed = if exists then (true, mode) else (false, closed)
open_stream exists mode (reading good) = (false, reading false)
open_stream exists mode (writing good) = (false, writing false)

-- SaveFile, of a file that can be written or not.
pub save_file : Bool → IniFile → Bool × IniFile
unfolding open_stream
save_file writable f =
    let o = open_stream writable (writing true) f.stream in
    if o.0
    then (true, record { reader = empty_reader; stream = o.1 })
    else (false, record f { stream = o.1 })

-- str << std::endl for each line
pub print_lines : List Text → Text
print_lines [] = []
print_lines (line ∷ rest) = line ++ 10 ∷ print_lines rest

-- Close: the text that the file gets, if one was open to be written, and the reader behind it.
pub close_file : IniFile → Option Text × IniFile
unfolding print_lines
close_file f =
    let forgotten : IniFile = record { reader = close f.reader; stream = closed } in
    elim f.stream [
      | closed ↦ (none, forgotten)
      | reading good ↦ (none, forgotten)
      | writing good ↦ (some (if good then print_lines f.reader.lines else []), forgotten)
    ]

-- OpenFile behind its open.
pub opened : Text → Bool × Stream → IniFile → Bool × IniFile
opened s (false, st) f = (false, record f { stream = st })
opened s (true, st) f =
    let r = open_file (some s) f.reader in
    (r.0, record { reader = r.1; stream = if r.0 then st else closed })

-- OpenFile of a path with this text, or with no file.
pub open_path : Option Text → IniFile → Bool × IniFile
unfolding open_stream opened
open_path none f = (false, record f { stream = (open_stream false (reading true) f.stream).1 })
open_path (some s) f = opened s (open_stream true (reading true) f.stream) f

-- The loop of WriteStrings, from the number `i` on.
pub write_from : ℕ → IniReader → Text → List Text → Result IniReader
write_from i r app [] = ok r
write_from i r app (s ∷ rest) =
    write_string r app (decimal (pos i)) s >>= λ w. write_from (suc i) w.1 app rest

pub write_strings : IniReader → Text → List Text → Result (Bool × IniReader)
unfolding write_from
write_strings r app strings = write_from 0 r app strings >>= λ w. ok (false, w)

-- No line holds the character that ends one.
abbrev pub has_end : Text → Bool
has_end [] = false
has_end (c ∷ cs) = if c == 10 then true else has_end cs

abbrev pub some_end : List Text → Bool
some_end [] = false
some_end (l ∷ ls) = if has_end l then true else some_end ls

get_lines-line :
    (acc line rest : Text)
    → has_end line ≡ false
    → get_lines acc (line ++ 10 ∷ rest) ≡ (acc ++ line) ∷ get_lines [] rest
unfolding get_lines
get_lines-line acc [] rest h = ap (λ l. l ∷ get_lines [] rest) (sym (append-nil acc))
get_lines-line acc (c ∷ cs) rest h = elim (Bool-cases (c == 10)) [
  | inl z ↦ absurd (ground (arith, z, h))
  | inr z ↦
      rw (z, get_lines)
        (get_lines-line (acc ++ c ∷ []) cs rest (ground (arith, z, h))
          ∙ ap (λ l. l ∷ get_lines [] rest) (append_assoc acc (c ∷ []) cs))
]

pub get_lines-print_lines :
    (ls : List Text) → some_end ls ≡ false → get_lines [] (print_lines ls) ≡ ls
unfolding get_lines print_lines text_eq
get_lines-print_lines [] h = refl
get_lines-print_lines (l ∷ ls) h = elim (Bool-cases (has_end l)) [
  | inl z ↦ absurd (ground (arith, z, h))
  | inr z ↦
      get_lines-line [] l (print_lines ls) z
      ∙ ap (λ r. l ∷ r) (get_lines-print_lines ls (ground (arith, z, h)))
]

open_file-accepts :
    (text : Text) (r0 : IniReader)
    → 0 < headers (get_lines [] text)
    → open_file (some text) r0
      ≡ (true, record { applines = index_lines 0 (get_lines [] text); lines = get_lines [] text })
unfolding open_file headers
open_file-accepts text r0 h = ground (arith, h, length-index_lines 0 (get_lines [] text))

-- What was saved is read back: behind Close of a file that SaveFile opened, whose lines hold no end of a line
-- and a header or more, OpenFile of the text that the file got returns true, with the same lines, an index
-- of their headers, and the stream open to be read.
pub open_path-close_file :
    (f : IniFile)
    → f.stream ≡ writing true
    → some_end f.reader.lines ≡ false
    → 0 < headers f.reader.lines
    → open_path (close_file f).0 (close_file f).1 ≡ (
      true,
      record {
        reader = record { applines = index_lines 0 f.reader.lines; lines = f.reader.lines };
        stream = reading true;
      },
    )
unfolding open_path close_file opened open_stream close
open_path-close_file f e n h =
    let same = get_lines-print_lines f.reader.lines n in
    rw e (
      ap (λ r. (r.0, record { reader = r.1; stream = if r.0 then reading true else closed }))
        (open_file-accepts (print_lines f.reader.lines) empty_reader
            (subst (λ ls. 0 < headers ls) (sym same) h)
          ∙ ap (λ ls. (true, record { applines = index_lines 0 ls; lines = ls })) same))
