-- ===== src/MctsTree/Backup.antt =====
-- What the backup does to every node of the store.
mod Tests
use estar_go.Base.{
  Option-cases, ℕ, zero, suc, ◌+◌, ◌-◌, ◌≤◌, ◌<◌, ◌≡◌, ◌≢◌, refl, sym, ap, ◌∙◌, ◌⊎◌, inl, inr, Bool,
  true, false, List, [], ◌∷◌, Option, none, some, arith, if◌then◌else◌, ◌==◌, get_elem?, length,
  Returns, Returns-map, Result, ok, err, ◌>>=◌, Bool-cases,
}
use estar_go.Base.Int.{ℤ, pos, ◌+ℤ◌, ◌-ℤ◌, ◌*ℤ◌}
use estar_go.Base.Floats.{Floats}
use estar_go.MctsTree.{
  Node, Edge, Tree, modify, with_edge, node_at, edge_of, back_update, backed_up, visited,
}
use estar_go.MctsTree.Store.{contains, get_elem?-modify, map_some}

module _ (fl : Floats) where
  open fl use {F}

  -- The node `cur` of the tree is a root.
  abbrev pub IsRoot : Tree fl → ℕ → Type 0
  IsRoot t cur = (nd : Node fl) × (get_elem? t cur ≡ some nd) × (nd.father ≡ none)

  -- The node `cur` hangs under `f`, which stands before it in the store.
  abbrev pub Under : Tree fl → ℕ → ℕ → Type 0
  Under t cur f =
      (nd : Node fl) × (e : Edge fl) × (get_elem? t cur ≡ some nd)
      × (nd.father ≡ some f)
      × (nd.edge ≡ some e)
      × (f < cur)

  -- The fathers of `cur`, from its own up to the root.
  abbrev pub Chain : Tree fl → ℕ → List ℕ → Type 0
  Chain t cur [] = IsRoot t cur
  Chain t cur (f ∷ fs) = Under t cur f × Chain t f fs

  -- The nodes on the chain that have a father: all but the root.
  unfoldable pub climbers : ℕ → List ℕ → List ℕ
  climbers cur [] = []
  climbers cur (f ∷ fs) = cur ∷ climbers f fs

  contains-above :
      (t : Tree fl) (cur j : ℕ) (fs : List ℕ) → Chain t cur fs → cur ≤ j → contains fs j ≡ false
  unfolding contains
  contains-above t cur j [] h le = refl
  contains-above t cur j (f ∷ fs) h le =
      let lt : f < cur = h.0.5 in ground (arith, contains-above t f j fs h.1)

  pub contains-climbers :
      (t : Tree fl) (cur j : ℕ) (fs : List ℕ)
      → Chain t cur fs
      → cur < j
      → contains (climbers cur fs) j ≡ false
  unfolding contains climbers
  contains-climbers t cur j [] h le = refl
  contains-climbers t cur j (f ∷ fs) h le =
      let lt : f < cur = h.0.5 in ground (arith, contains-climbers t f j fs h.1)

  -- A write that keeps fathers and edges keeps chains.
  abbrev pub KeepsLinks : (Node fl → Node fl) → Type 0
  KeepsLinks f =
      (nd : Node fl)
      → ((f nd).father ≡ nd.father)
        × ((e : Edge fl) → nd.edge ≡ some e → (e' : Edge fl) × ((f nd).edge ≡ some e'))

  pub Chain-modify :
      (t : Tree fl) (i : ℕ) (f : Node fl → Node fl) (cur : ℕ) (fs : List ℕ)
      → KeepsLinks f
      → Chain t cur fs
      → Chain (modify fl i f t) cur fs
  Chain-modify t i f cur [] k (nd, g, e) = elim (Bool-cases (i == cur)) [
    | inl same ↦ (f nd, get_elem?-modify fl i cur f t ∙ rw (same, g), (k nd).0 ∙ e)
    | inr other ↦ (nd, get_elem?-modify fl i cur f t ∙ rw (other, g), e)
  ]
  Chain-modify t i f cur (p ∷ ps) k ((nd, e, g, fa, ed, lt), h) =
      let later = Chain-modify t i f p ps k h in
      elim (Bool-cases (i == cur)) [
        | inl same ↦
            let (e', ed') = (k nd).1 e ed in
            (
              (f nd, e', get_elem?-modify fl i cur f t ∙ rw (same, g), (k nd).0 ∙ fa, ed', lt),
              later,
            )
        | inr other ↦ ((nd, e, get_elem?-modify fl i cur f t ∙ rw (other, g), fa, ed, lt), later)
      ]

  pub visited-KeepsLinks : KeepsLinks (visited fl)
  visited-KeepsLinks nd = (refl, λ e h. (e, h))

  pub with_edge-KeepsLinks : (f : Edge fl → Edge fl) → KeepsLinks (with_edge fl f)
  with_edge-KeepsLinks f nd = (ground arith, λ e h. (f e, rw (h, with_edge)))

  -- An edge that has been backed up.
  abbrev pub repaid : ℤ → F → ℕ → Edge fl → Edge fl
  repaid vl z iv e = record {
    action = e.action;
    p = e.p;
    old_p = e.old_p;
    n = e.n + 1;
    w = fl.add e.w z;
    vl = e.vl -ℤ pos (iv + 1) *ℤ vl;
  }

  with_edge-backed_up :
      (nd : Node fl) (vl : ℤ) (z : F) (iv : ℕ)
      → with_edge fl (backed_up fl vl z iv) nd
        ≡ record nd { edge = map_some (repaid vl z iv) nd.edge }
  with_edge-backed_up nd vl z iv = elim (Option-cases nd.edge) [
    | inl e ↦ rw e refl
    | inr (e, h) ↦ rw h refl
  ]

  -- A node after the backup: its edge is backed up if it climbs, its visits grow if it is a father.
  abbrev pub updated : ℤ → F → ℕ → Bool → Bool → Node fl → Node fl
  updated vl z iv is_father climbs nd = record nd {
    edge = if climbs then map_some (repaid vl z iv) nd.edge else nd.edge;
    total_n = if is_father then suc nd.total_n else nd.total_n;
  }

  abbrev Effect : Tree fl → ℕ → List ℕ → ℤ → F → ℕ → Tree fl → Type 0
  Effect t cur fs vl z iv t' =
      (j : ℕ)
      → get_elem? t' j
        ≡ map_some (updated vl z iv (contains fs j) (contains (climbers cur fs) j)) (get_elem? t j)

  -- One turn of the loop.
  abbrev turn : Tree fl → ℕ → ℕ → ℤ → F → ℕ → Tree fl
  turn t cur f vl z iv =
      modify fl f (visited fl) (modify fl cur (with_edge fl (backed_up fl vl z iv)) t)

  turn-Chain :
      (t : Tree fl) (cur f : ℕ) (fs : List ℕ) (vl : ℤ) (z : F) (iv : ℕ)
      → Chain t f fs
      → Chain (turn t cur f vl z iv) f fs
  turn-Chain t cur f fs vl z iv h =
      Chain-modify _ f (visited fl) f fs visited-KeepsLinks
        (Chain-modify t cur (with_edge fl (backed_up fl vl z iv)) f fs (with_edge-KeepsLinks _) h)

  map_some-id {ℓ} : {A : Type ℓ} (o : Option A) → map_some (λ a. a) o ≡ o
  map_some-id none = refl
  map_some-id (some a) = refl

  -- The two writes of a turn and the effect of the later turns, at a node `j`: `is_f` and `is_cur` say
  -- whether it is the father or the climber of this turn.
  turn_node :
      (o : Option (Node fl)) (vl : ℤ) (z : F) (iv : ℕ) (is_f is_cur a b : Bool)
      → (is_f ≡ true) × (is_cur ≡ false) × (a ≡ false)
        ⊎ (is_f ≡ false) × (is_cur ≡ true) × (a ≡ false) × (b ≡ false)
        ⊎ (is_f ≡ false) × (is_cur ≡ false)
      → let o' = if is_cur then map_some (with_edge fl (backed_up fl vl z iv)) o else o in
        map_some (updated vl z iv a b) (if is_f then map_some (visited fl) o' else o')
        ≡ map_some (updated vl z iv (if is_f then true else a) (if is_cur then true else b)) o
  turn_node none vl z iv is_f is_cur a b h = ground arith
  turn_node (some nd) vl z iv is_f is_cur a b h = ground (arith, with_edge-backed_up nd vl z iv)

  Effect-turn :
      (t t' : Tree fl) (cur f : ℕ) (fs : List ℕ) (vl : ℤ) (z : F) (iv : ℕ)
      → f < cur
      → Chain t f fs
      → Effect (turn t cur f vl z iv) f fs vl z iv t'
      → Effect t cur (f ∷ fs) vl z iv t'
  unfolding contains climbers
  Effect-turn t t' cur f fs vl z iv lt h eff j =
      let a =
        get_elem?-modify fl f j (visited fl)
          (modify fl cur (with_edge fl (backed_up fl vl z iv)) t) in
      let b = get_elem?-modify fl cur j (with_edge fl (backed_up fl vl z iv)) t in
      eff j
      ∙ rw (a, b)
          (turn_node (get_elem? t j) vl z iv (f == j) (cur == j) (contains fs j)
            (contains (climbers f fs) j) places)
    where
      places :
          ((f == j) ≡ true) × ((cur == j) ≡ false) × (contains fs j ≡ false)
          ⊎ ((f == j) ≡ false)
            × ((cur == j) ≡ true)
            × (contains fs j ≡ false)
            × (contains (climbers f fs) j ≡ false)
          ⊎ ((f == j) ≡ false) × ((cur == j) ≡ false)
      places = ground (arith, contains-above t f j fs h, contains-climbers t f j fs h)

  back_update-fuel :
      (fuel : ℕ) (t : Tree fl) (cur : ℕ) (fs : List ℕ) (vl : ℤ) (z : F) (iv : ℕ)
      → length fs < fuel
      → Chain t cur fs
      → Returns (Effect t cur fs vl z iv) (back_update fl fuel t cur vl z iv)
  unfolding back_update node_at edge_of
  back_update-fuel zero t cur fs vl z iv l h = absurd (omega arith)
  back_update-fuel (suc fuel) t cur [] vl z iv l (nd, g, e) =
      rw (g, e, node_at) (λ j. unfold contains climbers in sym (map_some-id (get_elem? t j)))
  back_update-fuel (suc fuel) t cur (f ∷ fs) vl z iv l ((nd, e, g, fa, ed, lt), h) =
      rw (g, fa, ed, node_at, edge_of)
        (Returns-map (Effect (turn t cur f vl z iv) f fs vl z iv) (Effect t cur (f ∷ fs) vl z iv)
          (back_update fl fuel (turn t cur f vl z iv) f vl z iv)
          (λ t' eff. Effect-turn t t' cur f fs vl z iv lt h eff)
          (back_update-fuel fuel (turn t cur f vl z iv) f fs vl z iv (omega arith)
            (turn-Chain t cur f fs vl z iv h)))

  length-Chain : (t : Tree fl) (cur : ℕ) (fs : List ℕ) → Chain t cur fs → length fs ≤ cur
  length-Chain t cur [] h = omega arith
  length-Chain t cur (f ∷ fs) h = let lt : f < cur = h.0.5 in omega (arith, length-Chain t f fs h.1)

  -- The backup from a node whose fathers are `fs`, each standing before its child in the store, ends,
  -- dereferences no null, and does this to every node of the store: a node on the way that has a
  -- father gives the virtual loss of invalid_visit + 1 visits back, adds 1 to its edge's visits and
  -- `z` to its value; each of `fs` adds 1 to its visits; all else stays.
  pub back_update-Effect :
      (t : Tree fl) (cur : ℕ) (fs : List ℕ) (vl : ℤ) (z : F) (iv : ℕ)
      → Chain t cur fs
      → Returns
          (λ t'.
            (j : ℕ)
            → get_elem? t' j
              ≡ map_some
                  (updated vl z iv (contains fs j) (contains (climbers cur fs) j))
                  (get_elem? t j))
          (back_update fl (suc cur) t cur vl z iv)
  back_update-Effect t cur fs vl z iv h =
      back_update-fuel (suc cur) t cur fs vl z iv (omega (arith, length-Chain t cur fs h)) h
