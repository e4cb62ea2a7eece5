-- ===== src/Ini/Entries.antt =====
-- The line `key=value` that WriteString makes, as GetString takes it apart.
use estar_go.Base.{◌≡◌, ◌≢◌, refl, List, [], ◌∷◌, some, arith, Text, text_eq_refl, false}
use estar_go.Ini.{key_name, value_of, after_eq, entry, scan_key, found, is_header}

-- No `=` in the key.
abbrev pub HasNoEq : Text → Type 0
HasNoEq [] = Unit {0}
HasNoEq (c ∷ cs) = (c ≢ b'=') × HasNoEq cs

-- A key that an INI line can carry: no `=` in it, and no `[` at its head.
abbrev pub IsKey : Text → Type 0
IsKey key = HasNoEq key × (is_header key ≡ false)

pub key_name-entry : (key value : Text) → HasNoEq key → key_name (entry key value) ≡ key
unfolding key_name
key_name-entry [] value h = refl
key_name-entry (c ∷ cs) value h = ground (arith, key_name-entry cs value)

after_eq-entry : (key value : Text) → HasNoEq key → after_eq (entry key value) ≡ some value
unfolding after_eq
after_eq-entry [] value h = refl
after_eq-entry (c ∷ cs) value h = ground (arith, after_eq-entry cs value)

pub value_of-entry : (key value : Text) → HasNoEq key → value_of (entry key value) ≡ value
unfolding value_of
value_of-entry key value h = rw (after_eq-entry key value h, value_of)

-- A scan that comes to the entry finds it.
pub scan_key-entry :
    (key value : Text) (rest : List Text)
    → IsKey key
    → scan_key key (entry key value ∷ rest) ≡ found value
unfolding scan_key
scan_key-entry [] value rest h =
    ground (arith, key_name-entry [] value, value_of-entry [] value, text_eq_refl [])
scan_key-entry (c ∷ cs) value rest h =
    ground
      (arith, key_name-entry (c ∷ cs) value, value_of-entry (c ∷ cs) value, text_eq_refl (c ∷ cs))
