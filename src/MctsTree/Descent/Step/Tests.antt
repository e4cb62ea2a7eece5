-- ===== src/MctsTree/Descent/Step/Tests.antt =====
-- Steps from the root 0 of a store with the children 1 and 2, both over or both repetitions.
use estar_go.Base.{
  ℕ, ◌+◌, ◌≡◌, refl, inl, true, false, [], ◌∷◌, none, some, get_elem?, OnOk, err, null_pointer,
}
use estar_go.Base.Int.{ℤ, pos, negsuc}
use estar_go.Base.Floats.{Floats, int_floats}
use estar_go.GoBoard.{Pachi}
use estar_go.MctsTree.{Node, Edge, Tree}
use estar_go.MctsTree.Descent.{Selected, select_path}
use estar_go.MctsTree.Descent.Marks.{Justified}
use estar_go.MctsTree.Descent.Step.{step, select_step-Justified, select_path-AllRepeated}

-- Every number is above every other: scores pass the starting value.
abbrev high_floats : Floats
high_floats = record int_floats { less = λ a b. true }

abbrev toy : Pachi
toy = record {
  Board = ℕ;
  Score = ℕ;
  new_board = λ komi. 0;
  clear = λ b. 0;
  put_komi = λ komi b. b;
  is_valid_move = λ b s x y. true;
  play = λ b s x y. b + 1;
  hash = λ b. b;
  official_score = λ b. b;
  negate = λ s. s;
  is_nonnegative = λ s. true;
}

abbrev blank : Node high_floats
blank = record {
  nexts = none;
  father = none;
  edge = none;
  total_n = 4;
  invalid_visit = 0;
  depth = 0;
  value_pred = pos 0;
  rq_sent = true;
  eval_ready = true;
  is_terminate = false;
  is_repetition_checked = true;
  is_repetition = false;
  result = pos 0;
  add_dirichlet = false;
  dirichlet_max_action = negsuc 0;
}

abbrev edge_to : ℤ → Edge high_floats
edge_to a = record { action = a; p = pos 0; old_p = pos 0; n = 2; w = pos 1; vl = pos 3 }

abbrev top : Node high_floats
top = record blank { nexts = some (1 ∷ 2 ∷ []) }

abbrev child : ℤ → Node high_floats
child a = record blank { father = some 0; edge = some (edge_to a) }

-- Both children are lost for the player 1.
abbrev lost : Tree high_floats
lost =
    top
    ∷ record (child (pos 5)) { is_terminate = true; result = negsuc 0 }
    ∷ record (child (pos 6)) { is_terminate = true; result = negsuc 0 }
    ∷ []

abbrev repeated : Tree high_floats
repeated =
    top
    ∷ record (child (pos 5)) { is_repetition = true }
    ∷ record (child (pos 6)) { is_repetition = true }
    ∷ []

abbrev start : Tree high_floats → Selected high_floats toy
start t = record {
  leaf = 0;
  tree = t;
  state = record { b = 0; history = []; hash8 = []; board_repetition = false };
  select_depth = 0;
  visit_num = 0;
  score_num = 0;
}

select_step-Justified_example :
    OnOk
      (λ r.
        (nd : Node high_floats) × (get_elem? r.1.tree 0 ≡ some nd)
        × Justified high_floats lost (pos 1) (1 ∷ 2 ∷ []) nd)
      (step high_floats toy (start lost) (pos 3) (pos 1) (pos 1))
select_step-Justified_example =
    select_step-Justified high_floats toy (start lost) (pos 3) (pos 1) (pos 1) top (1 ∷ 2 ∷ [])
      (inl refl) refl refl refl (λ k nd e g h. refl)

select_path-AllRepeated_example :
    select_path high_floats toy 3 (start repeated) (pos 3) (pos 1) (pos 1) ≡ err null_pointer
select_path-AllRepeated_example =
    select_path-AllRepeated high_floats toy 2 (start repeated) (pos 3) (pos 1) (pos 1) top 1
      (2 ∷ []) refl refl refl refl
      (
        (record (child (pos 5)) { is_repetition = true }, refl, (refl, refl)),
        ((record (child (pos 6)) { is_repetition = true }, refl, (refl, refl)), tt),
      )
