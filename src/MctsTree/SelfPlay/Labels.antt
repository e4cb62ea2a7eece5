-- ===== src/MctsTree/SelfPlay/Labels.antt =====
-- The children's edges and the labels of selfplay_select_action of src/MCTSTree.cpp.
use estar_go.Base.{
  ℕ, zero, suc, ◌≡◌, ◌<◌, refl, ap, ◌∙◌, false, List, [], ◌∷◌, some, Result, ok, Returns, ◌>>=◌,
  get_elem?, length, arith, Text,
}
use estar_go.Base.Int.{ℤ, pos, negsuc, eqb_ℤ}
use estar_go.Base.Floats.{Floats}
use estar_go.MctsTree.{Edge, Node, Tree, node_at, edge_of}
use estar_go.MctsTree.Select.{no_action}
use estar_go.MctsTree.SelfPlay.{place_of, put_at, edges, share, fill, entropy}

place_of-lt : (a : ℤ) (i : ℕ) → place_of a ≡ some i → i < 362
unfolding place_of
place_of-lt (pos a) i h = ground (arith, h)
place_of-lt (negsuc zero) i h = ground (arith, h)
place_of-lt (negsuc (suc a)) i h = absurd (ground (arith, h))

pub place_of-no_action : (a : ℤ) (i : ℕ) → place_of a ≡ some i → eqb_ℤ a no_action ≡ false
unfolding place_of
place_of-no_action (pos a) i h = ground arith
place_of-no_action (negsuc zero) i h = refl
place_of-no_action (negsuc (suc a)) i h = absurd (ground (arith, h))

length-put_at : {A : Type 0} (i : ℕ) (a : A) (xs : List A) → length (put_at i a xs) ≡ length xs
unfolding put_at
length-put_at i a [] = refl
length-put_at zero a (x ∷ xs) = refl
length-put_at (suc i) a (x ∷ xs) = ap suc (length-put_at i a xs)

pub get_elem?-lt :
    {A : Type 0} (xs : List A) (i : ℕ) → i < length xs → (a : A) × (get_elem? xs i ≡ some a)
get_elem?-lt [] i h = absurd (omega arith)
get_elem?-lt (x ∷ xs) zero h = (x, refl)
get_elem?-lt (x ∷ xs) (suc i) h = get_elem?-lt xs i (omega arith)

module _ (fl : Floats) where
  open fl use {F, of_int, less}

  -- The children stand in the store, each has an edge, and its action is a point of the board or a pass.
  unfoldable pub AllEdged : Tree fl → List ℕ → List (Edge fl) → Type 0
  AllEdged t [] [] = Unit {0}
  AllEdged t (k ∷ ks) (e ∷ es) =
      ((nd : Node fl) × (get_elem? t k ≡ some nd) × (nd.edge ≡ some e))
      × ((i : ℕ) × (place_of e.action ≡ some i))
      × AllEdged t ks es
  AllEdged t _ _ = ⊥

  module _ (t : Tree fl) where
    pub node_edge :
        (k : ℕ) (nd : Node fl) (e : Edge fl)
        → get_elem? t k ≡ some nd
        → nd.edge ≡ some e
        → {B : Type 0} (f : Node fl → Edge fl → Result B)
        → (node_at fl t k >>= λ nd. edge_of fl nd >>= λ e. f nd e) ≡ f nd e
    unfolding node_at edge_of
    node_edge k nd e h u f = rw (h, node_at, u, edge_of) refl

    pub edges-AllEdged :
        (ks : List ℕ) (es : List (Edge fl)) → AllEdged t ks es → edges fl t ks ≡ ok es
    unfolding edges AllEdged
    edges-AllEdged [] [] h = refl
    edges-AllEdged [] (e ∷ es) h = absurd h
    edges-AllEdged (k ∷ ks) [] h = absurd h
    edges-AllEdged (k ∷ ks) (e ∷ es) ((nd, g, u), p, h) =
        node_edge k nd e g u (λ nd e. edges fl t ks >>= λ es. ok (e ∷ es))
        ∙ rw (edges-AllEdged ks es h) refl

    pub fill-Returns :
        (sum : ℕ) (ks : List ℕ) (es : List (Edge fl)) (dis : List F)
        → AllEdged t ks es
        → length dis ≡ 362
        → Returns (λ r. length r ≡ 362) (fill fl sum es dis)
    unfolding fill AllEdged
    fill-Returns sum [] [] dis h l = l
    fill-Returns sum [] (e ∷ es) dis h l = absurd h
    fill-Returns sum (k ∷ ks) [] dis h l = absurd h
    fill-Returns sum (k ∷ ks) (e ∷ es) dis (n, (i, p), h) l =
        rw (p, Returns)
          (fill-Returns sum ks es (put_at i (share fl sum e) dis) h
            (length-put_at i (share fl sum e) dis ∙ l))

    pub entropy-Returns :
        (log : F → F) (to_string : F → Text) (ks : List ℕ) (es : List (Edge fl)) (dis : List F)
        (s : F)
        → AllEdged t ks es
        → length dis ≡ 362
        → Returns (λ r. Unit {0}) (entropy fl log to_string dis es s)
    unfolding entropy AllEdged
    entropy-Returns log to_string [] [] dis s h l = tt
    entropy-Returns log to_string [] (e ∷ es) dis s h l = absurd h
    entropy-Returns log to_string (k ∷ ks) [] dis s h l = absurd h
    entropy-Returns log to_string (k ∷ ks) (e ∷ es) dis s (n, (i, p), h) l =
        let (d, g) = get_elem?-lt dis i (omega (arith, place_of-lt e.action i p, l)) in
        rw (p, Returns) (rw (g, Returns) (entropy-Returns log to_string ks es dis _ h l))
