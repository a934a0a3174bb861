-- ===== src/RunEngine/Fingerprint.antt =====
-- fingerprint.py, and `_maybe_fingerprint` of cli/run.py.
use fast_flow_transform.Prelude.{Bool, Option, none, some, List, [], ◌∷◌, if◌then◌else◌}
use fast_flow_transform.Prelude.Names.{Name, same}
use mathlib.Core.Option
use fast_flow_transform.Prelude.Sorting.{sort, name_leb}
use fast_flow_transform.Registry.{Kind, sql, python, Node, relation_for}
use fast_flow_transform.Cache.{Fingerprints, get, set}

-- The dict that `fingerprint_sql` and `fingerprint_py` hash. `text` is the SQL or the source of the
-- function.
pub record Payload : Type 0 where
  pub kind : Kind
  pub node : Name
  pub relation : Name
  pub text : Name
  pub env : Name
  pub deps : Fingerprints

-- What `_maybe_fingerprint` uses: the rendered SQL and the source of a function, with their line ends
-- normalised (`none` where that raises), and SHA-256 over the JSON text of the payload. `S` is what the
-- rendering sees of the database, which a template asks for the relations that exist.
pub record Fingerprinting (S : Type 0) : Type 0 where
  pub supports_sql_fp : Bool
  pub rendered_sql : S → Node → Option Name
  pub func_src : Node → Option Name
  pub env_ctx : Name
  pub hash_hex : Payload → Name

-- `a or b` for an optional text.
abbrev pub or_text : Option Name → Name → Name
or_text none b = b
or_text (some a) b = if same a "" then b else a

-- `computed_fps.get(d) or cache.get(d) or ""`
unfoldable pub dep_fp : Fingerprints → Fingerprints → Name → Name
unfolding get
dep_fp computed cache d = or_text (get computed d) (or_text (get cache d) "")

-- The dict comprehension `dep_fps`.
unfoldable pub dep_fps : (Name → Name) → List Name → Fingerprints → Fingerprints
unfolding set
dep_fps fp [] acc = acc
dep_fps fp (d ∷ ds) acc = dep_fps fp ds (set acc d (fp d))

unfoldable pub payload :
    {S : Type 0} → Fingerprinting S → Fingerprints → Fingerprints → Node → Name → Payload
unfolding dep_fps dep_fp sort name_leb relation_for
payload f computed cache n text = record {
  kind = n.kind;
  node = n.name;
  relation = relation_for n.name;
  text = text;
  env = f.env_ctx;
  deps = sort (λ a b. name_leb a.0 b.0) (dep_fps (dep_fp computed cache) n.deps []);
}

-- `_maybe_fingerprint`
unfoldable pub maybe_fingerprint :
    {S : Type 0} → Fingerprinting S → S → Fingerprints → Fingerprints → Node → Option Name
unfolding payload
maybe_fingerprint f db computed cache n = elim n.kind [
  | sql ↦
      if f.supports_sql_fp
      then Option.map (λ text. f.hash_hex (payload f computed cache n text)) (f.rendered_sql db n)
      else none
  | python ↦ Option.map (λ text. f.hash_hex (payload f computed cache n text)) (f.func_src n)
]
