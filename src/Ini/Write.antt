-- ===== src/Ini/Write.antt =====
-- What GetString sees of WriteString.
use estar_go.Base.{
  ℕ, suc, ◌≤◌, ◌≡◌, refl, List, [], ◌∷◌, ◌++◌, Option, none, some, arith, Text, false, Result, ok,
  drop, length, drop-eq-nil, length-append,
}
use estar_go.Ini.{
  AppIndex, IniReader, entry, scan_key, end_of_file, write_apps, write_string, scan_apps,
  get_string, section_header,
}

-- What the search of WriteString returns, if it found the key.
abbrev OnSome {ℓ κ} : {A : Type ℓ} → (A → Type κ) → Result (Option A) → Type κ
OnSome P (ok (some a)) = P a
OnSome P _ = Unit

-- With no section of the name the loop goes over all the old ones.
abbrev OnNone {ℓ κ} : {A : Type ℓ} → Type κ → Result (Option A) → Type κ
OnNone P (ok none) = P
OnNone P _ = Unit

scan_apps-append :
    (lines ls : List Text) (app key value default : Text) (apps : List AppIndex) (b : AppIndex)
    → OnNone
        (scan_apps ls app key default (apps ++ b ∷ []) ≡ scan_apps ls app key default (b ∷ []))
        (write_apps lines app key value apps)
unfolding write_apps scan_apps
scan_apps-append lines ls app key value default [] b = refl
scan_apps-append lines ls app key value default (a ∷ rest) b =
    ground (arith, scan_apps-append lines ls app key value default rest b)

scan_key-end :
    (key : Text) (n : ℕ) (ls : List Text) → length ls ≤ n → scan_key key (drop n ls) ≡ end_of_file
unfolding scan_key
scan_key-end key n ls h = rw (drop-eq-nil n ls h)

scan_apps_last :
    (ls : List Text) (app key default : Text) (b : AppIndex)
    → length ls ≤ suc b.index
    → scan_apps ls app key default (b ∷ []) ≡ ok default
unfolding scan_apps
scan_apps_last ls app key default b h = ground (arith, scan_key-end key (suc b.index) ls h)

-- A key written to a section that the file does not have is lost: WriteString returned false, the
-- index it recorded is one too high, and GetString gives the default.
pub get_string-write_string_new :
    (r : IniReader) (app key value default : Text) (r' : IniReader)
    → write_string r app key value ≡ ok (false, r')
    → get_string r' app key default ≡ ok default
unfolding write_string get_string
get_string-write_string_new r app key value default r' h =
    let header = section_header app in
    let lines = r.lines ++ header ∷ [] in
    let ls = lines ++ entry key value ∷ [] in
    let b : AppIndex = record { name = header; index = length lines } in
    ground (
      arith,
      scan_apps-append r.lines ls app key value default r.applines b,
      scan_apps_last ls app key default b
          (omega (arith, length-append lines (entry key value ∷ []))),
    )
