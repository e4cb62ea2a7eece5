-- ===== src/MctsTree/Info/Ends.antt =====
-- The end of the recursion of collect_tree_info in src/MCTSTree.cpp.
use estar_go.Base.Floats.{Floats}
