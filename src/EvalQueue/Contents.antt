-- ===== src/EvalQueue/Contents.antt =====
-- The items that a valid ring holds, oldest first.
use estar_go.Base.{
  ℕ, zero, suc, ◌+◌, ◌-◌, ◌<◌, ◌≡◌, ◌≢◌, refl, ap, ap₂, List, [], ◌∷◌, ◌++◌, Option, none, some,
  arith, leb, if◌then◌else◌, length, get_or, set, get_or-set_self, get_or-set_ne,
}
use estar_go.EvalQueue.{CycleQueue, next_index}

-- The index `n` steps behind `h`, for n ≤ size.
abbrev pub index_at : ℕ → ℕ → ℕ → ℕ
index_at size h n = if leb size (h + n) then h + n - size else h + n

-- How many items stand from `h` to `t`.
abbrev pub span : ℕ → ℕ → ℕ → ℕ
span size h t = if leb h t then t - h + 1 else t + size - h + 1

module _ {ℓ} {A : Type ℓ} (d : A) where
  abbrev pub window : List A → ℕ → ℕ → ℕ → List A
  window xs size h zero = []
  window xs size h (suc n) = get_or xs h d ∷ window xs size (next_index size h) n

  abbrev pub items : List A → ℕ → Option ℕ → Option ℕ → List A
  items xs size (some h) (some t) = window xs size h (span size h t)
  items xs size _ _ = []

  abbrev pub contents : CycleQueue A → List A
  contents q = items q.data_list q.queue_size q.head q.tail

  pub length-window : (xs : List A) (size h n : ℕ) → length (window xs size h n) ≡ n
  length-window xs size h zero = refl
  length-window xs size h (suc n) = ap suc (length-window xs size (next_index size h) n)

  pub window_pos :
      (xs : List A) (size h n : ℕ)
      → 0 < n
      → window xs size h n ≡ get_or xs h d ∷ window xs size (next_index size h) (n - 1)
  window_pos xs size h zero p = absurd (omega arith)
  window_pos xs size h (suc n) p = ap (λ k. window xs size h (suc k)) (omega arith)

  -- A write just behind a window extends it by the value written.
  pub window-set :
      (xs : List A) (size : ℕ) (v : A) (n h i : ℕ)
      → length xs ≡ size
      → h < size
      → n < size
      → i ≡ index_at size h n
      → window (set xs i v) size h (suc n) ≡ window xs size h n ++ v ∷ []
  window-set xs size v zero h i hs hh hn e =
      let e' : i ≡ h = ground arith in rw (e', get_or-set_self xs h v d (omega arith))
  window-set xs size v (suc n) h i hs hh hn e =
      let ne : i ≢ h = ground arith in
      ap₂ ◌∷◌ (get_or-set_ne xs v d ne) (
        window-set xs size v n (next_index size h) i hs (ground arith) (omega arith) (ground arith))

-- The ring's representation: empty, or with both indexes inside the storage.
abbrev pub InRange : ℕ → Option ℕ → Option ℕ → Type 0
InRange size none none = Unit
InRange size (some h) (some t) = (h < size) × (t < size)
InRange size _ _ = ⊥

pub record IsValid {ℓ} {A : Type ℓ} (q : CycleQueue A) : Type 0 where
  pub positive : 0 < q.queue_size
  pub storage : length q.data_list ≡ q.queue_size
  pub in_range : InRange q.queue_size q.head q.tail
