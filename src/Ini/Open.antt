-- ===== src/Ini/Open.antt =====
-- What OpenFile leaves in the reader, and what GetString meets in it.
use estar_go.Base.{
  ℕ, suc, ◌-◌, ◌≤◌, ◌≡◌, ◌≢◌, refl, sym, subst, inl, inr, List, [], ◌∷◌, Option, none, some, arith,
  Text, text_eq, if◌then◌else◌, true, false, err, out_of_range, drop, length, get_elem?, Bool-cases,
}
use estar_go.Ini.{
  AppIndex, IniReader, is_header, index_lines, open_file, close, get_lines, get_group_count,
  key_name, scan_key, threw, scan_apps, get_string, section_header, empty_reader,
}

abbrev pub All {ℓ κ} : {A : Type ℓ} → (A → Type κ) → List A → Type κ
All P [] = Unit
All P (x ∷ xs) = P x × All P xs

-- The entry points at a header line that holds its name, `from` lines being left out of `lines`.
abbrev PointsFrom : ℕ → List Text → AppIndex → Type 0
PointsFrom from lines a =
    (from ≤ a.index) × (get_elem? lines (a.index - from) ≡ some a.name) × (is_header a.name ≡ true)

-- The indexes rise.
abbrev pub Rising : ℕ → List AppIndex → Type 0
Rising from [] = Unit {0}
Rising from (a ∷ rest) = (from ≤ a.index) × Rising (suc a.index) rest

-- The header lines of the file.
unfoldable pub headers : List Text → ℕ
headers [] = 0
headers (line ∷ rest) = if is_header line then suc (headers rest) else headers rest

pub record IsIndexed (r : IniReader) : Type 0 where
  pub points : All (PointsFrom 0 r.lines) r.applines
  pub rising : Rising 0 r.applines
  pub complete : get_group_count r ≡ headers r.lines

get_elem?-suc :
    (str : Text) (rest : List Text) (from i : ℕ)
    → suc from ≤ i
    → get_elem? (str ∷ rest) (i - from) ≡ get_elem? rest (i - suc from)
get_elem?-suc str rest from i h = let e : i - from ≡ suc (i - suc from) = omega arith in rw e

PointsFrom-cons :
    (from : ℕ) (str : Text) (rest : List Text) (apps : List AppIndex)
    → All (PointsFrom (suc from) rest) apps
    → All (PointsFrom from (str ∷ rest)) apps
PointsFrom-cons from str rest [] h = tt
PointsFrom-cons from str rest (a ∷ as') h = (
  (omega arith, rw (get_elem?-suc str rest from a.index h.0.0) h.0.1, h.0.2),
  PointsFrom-cons from str rest as' h.1,
)

Rising-le : (m n : ℕ) (apps : List AppIndex) → m ≤ n → Rising n apps → Rising m apps
Rising-le m n [] h r = tt
Rising-le m n (a ∷ rest) h r = (omega arith, r.1)

index_lines-points :
    (from : ℕ) (lines : List Text) → All (PointsFrom from lines) (index_lines from lines)
unfolding index_lines
index_lines-points from [] = tt
index_lines-points from (str ∷ rest) =
    let later =
      PointsFrom-cons from str rest (index_lines (suc from) rest)
        (index_lines-points (suc from) rest) in
    elim (Bool-cases (is_header str)) [
      | inl e ↦ rw e ((omega arith, here, e), later)
      | inr e ↦ rw e later
    ]
  where
    here : get_elem? (str ∷ rest) (from - from) ≡ some str
    here = let e : from - from ≡ 0 = omega arith in rw e

index_lines-Rising : (from : ℕ) (lines : List Text) → Rising from (index_lines from lines)
unfolding index_lines
index_lines-Rising from [] = tt
index_lines-Rising from (str ∷ rest) = elim (Bool-cases (is_header str)) [
  | inl e ↦ rw e (omega arith, index_lines-Rising (suc from) rest)
  | inr e ↦ rw e (Rising-le from (suc from) _ (omega arith) (index_lines-Rising (suc from) rest))
]

pub length-index_lines :
    (from : ℕ) (lines : List Text) → length (index_lines from lines) ≡ headers lines
unfolding index_lines headers
length-index_lines from [] = refl
length-index_lines from (str ∷ rest) = ground (arith, length-index_lines (suc from) rest)

pub open_file_lem :
    (text : Text) (r0 r : IniReader)
    → open_file (some text) r0 ≡ (true, r)
    → r ≡ record { applines = index_lines 0 (get_lines [] text); lines = get_lines [] text }
unfolding open_file
open_file_lem text r0 r h = ground arith

-- A file that OpenFile accepts is indexed: every entry points at a header line of its name, the
-- indexes rise, and there is one entry for each header line.
pub open_file-IsIndexed :
    (text : Text) (r0 r : IniReader) → open_file (some text) r0 ≡ (true, r) → IsIndexed r
open_file-IsIndexed text r0 r h =
    let lines = get_lines [] text in
    subst IsIndexed (sym (open_file_lem text r0 r h)) (record {
      points = index_lines-points 0 lines;
      rising = index_lines-Rising 0 lines;
      complete = unfold get_group_count in length-index_lines 0 lines;
    })

-- What OpenFile refuses, a file without a header line, leaves the reader empty.
pub open_file_refused :
    (text : Text) (r0 : IniReader)
    → (open_file (some text) r0).0 ≡ false
    → ((open_file (some text) r0).1 ≡ empty_reader) × (headers (get_lines [] text) ≡ 0)
unfolding open_file close headers
open_file_refused text r0 h = ground (arith, length-index_lines 0 (get_lines [] text))

-- A blank line before the key, in the lines from the section's header on.
abbrev pub BlankFirst : Text → List Text → Type 0
BlankFirst key [] = ⊥
BlankFirst key ([] ∷ rest) = Unit {0}
BlankFirst key ((c ∷ cs) ∷ rest) =
    (c ≢ b'[') × (text_eq key (key_name (c ∷ cs)) ≡ false) × BlankFirst key rest

scan_key_blank :
    (key : Text) (lines : List Text) → BlankFirst key lines → scan_key key lines ≡ threw
unfolding scan_key
scan_key_blank key [] h = absurd h
scan_key_blank key ([] ∷ rest) h = refl
scan_key_blank key ((c ∷ cs) ∷ rest) h = ground (arith, scan_key_blank key rest)

-- The first section of the name, the one that GetString looks into.
unfoldable pub find_section : Text → List AppIndex → Option AppIndex
find_section app [] = none
find_section app (a ∷ rest) =
    if text_eq (section_header app) a.name then some a else find_section app rest

scan_apps_blank :
    (lines : List Text) (app key default : Text) (apps : List AppIndex) (a : AppIndex)
    → find_section app apps ≡ some a
    → scan_key key (drop (suc a.index) lines) ≡ threw
    → scan_apps lines app key default apps ≡ err out_of_range
unfolding find_section scan_apps
scan_apps_blank lines app key default [] a f h = ground arith
scan_apps_blank lines app key default (b ∷ rest) a f h =
    ground (arith, scan_apps_blank lines app key default rest a)

-- A blank line in the section that stands before the key, or with the key missing before the next
-- header, makes GetString throw std::out_of_range; the default is not given.
pub get_string_blank :
    (r : IniReader) (app key default : Text) (a : AppIndex)
    → find_section app r.applines ≡ some a
    → BlankFirst key (drop (suc a.index) r.lines)
    → get_string r app key default ≡ err out_of_range
unfolding get_string find_section
get_string_blank r app key default a f h = ground (
  arith,
  scan_apps_blank r.lines app key default r.applines a f (scan_key_blank key _ h),
  lines_pos r.lines a.index h,
  apps_pos r.applines f,
)
  where
    lines_pos : (lines : List Text) (i : ℕ) → BlankFirst key (drop (suc i) lines) → length lines ≢ 0
    lines_pos [] i b = absurd b
    lines_pos (x ∷ xs) i b = λ e. omega arith

    apps_pos : (apps : List AppIndex) → find_section app apps ≡ some a → length apps ≢ 0
    apps_pos [] e = cc e
    apps_pos (x ∷ xs) e = λ n. omega arith

pub open_file-headers :
    (text : Text) (r0 : IniReader)
    → headers (get_lines [] text) ≡ 0
    → (open_file (some text) r0).0 ≡ false
unfolding open_file close headers
open_file-headers text r0 h = ground (arith, length-index_lines 0 (get_lines [] text))

pub open_file-none : (r0 : IniReader) → (open_file none r0).0 ≡ false
unfolding open_file
open_file-none r0 = refl
