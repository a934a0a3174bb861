-- ===== src/Cache/Samples.antt =====
-- A small project.
use fast_flow_transform.Prelude.{◌≡◌, refl, true, false, none, some, List, [], ◌∷◌, arith}
use fast_flow_transform.Prelude.Names.{Name}
use mathlib.Core.List.{List}
use Prim.Native.String as Str
use fast_flow_transform.Registry.{Nodes}
use fast_flow_transform.Dag.{ordered}
use fast_flow_transform.Dag.Samples.{model}
use fast_flow_transform.Cache.{Sources, Fingerprints, compute_current, modified_set, can_skip_node}
use fast_flow_transform.Cache.Current.{IsFingerprinted, compute_current-IsFingerprinted}

-- A hash that joins its parts.
abbrev joined : List Name → Name
joined [] = ""
joined (t ∷ ts) = Str.◌++◌ t (joined ts)

abbrev plain : Sources
plain = record { render = λ n. some "select"; read_text = λ n. none; function = λ n. none }

abbrev pair : Nodes
pair = model "b" ("a" ∷ []) ∷ model "a" [] ∷ []

abbrev pair_fps : Fingerprints
pair_fps = ("a", "sqlaselectenv") ∷ ("b", "sqlbselectenvsqlaselectenv") ∷ []

current-pair : compute_current plain joined "env" pair ≡ ordered pair_fps
unfolding compute_current
current-pair = refl

modified-pair :
    modified_set (("a", "old") ∷ ("b", "sqlbselectenvsqlaselectenv") ∷ []) pair_fps ≡ "a" ∷ []
unfolding modified_set
modified-pair = refl

skip-ephemeral : can_skip_node (λ _. false) pair_fps "a" "sqlaselectenv" "ephemeral" ≡ true
unfolding can_skip_node
skip-ephemeral = refl

compute_current-IsFingerprinted_example : IsFingerprinted plain joined "env" pair pair_fps
compute_current-IsFingerprinted_example =
    compute_current-IsFingerprinted plain joined "env" pair pair_fps (ground arith) current-pair
