-- ===== src/EdgeSelect.antt =====
-- internal/attractor/edge/selector.go: which edge a finished node is left by.
pub mod Weights
pub mod Firsts
pub mod Chosen
use dfgo.Prelude.{
  String, Bool, true, false, not, ◌&&◌, if◌then◌else◌, List, [], ◌∷◌, Option, none, some, str_eq,
  keep, find?, ltb,
}
use dfgo.Prelude.Dict.{Dict, index}
use dfgo.Prelude.Result.{ok, err}
use dfgo.Prelude.Sort.{sort}
use dfgo.Model.Graph.{Edge, Graph, out_edges}
use dfgo.Model.Attrs.{Floats, float_attr}
use dfgo.Runtime.Outcome.{Outcome, status_text}
use dfgo.Runtime.Context.{Context, snapshot}
use dfgo.Cond
use dfgo.Cond.{Env}

unfoldable pub env_of : Outcome → Context → Env
unfolding snapshot
env_of outcome ctx = record {
  outcome = status_text outcome.status;
  preferred_label = outcome.preferred_label;
  context = snapshot ctx;
}

-- The test of step 1: there is a condition, it parses, and it holds.
unfoldable pub condition_holds : Env → Edge → Bool
condition_holds env e =
    let text = index e.attrs "condition" in
    if str_eq text ""
    then false
    else elim (Cond.parse text) [ err x ↦ false | ok expr ↦ Cond.eval expr env ]

abbrev pub has_label : String → Edge → Bool
has_label label e = str_eq (index e.attrs "label") label

-- step 2; without a preferred label nothing is looked for
unfoldable pub by_label : String → List Edge → Option Edge
by_label label edges = if not (str_eq label "") then find? (has_label label) edges else none

-- step 3: the first suggested ID that some edge leads to
unfoldable pub by_suggestion : List String → List Edge → Option Edge
by_suggestion [] edges = none
by_suggestion (id ∷ ids) edges =
    let later = by_suggestion ids edges in
    elim (find? (λ (e : Edge). str_eq e.to id) edges) [ some e ↦ some e | none ↦ later ]

abbrev pub is_unconditional : Edge → Bool
is_unconditional e = str_eq (index e.attrs "condition") ""

unfoldable pub filter_unconditional : List Edge → List Edge
filter_unconditional edges = keep is_unconditional edges

abbrev pub first : List Edge → Option Edge
first [] = none
first (e ∷ es) = some e

abbrev pub or_try : Option Edge → Option Edge → Option Edge
or_try (some e) later = some e
or_try none later = later

module _ (fl : Floats) where
  -- higher weight first, then declaration order
  unfoldable pub heavier : Edge → Edge → Bool
  unfolding float_attr
  heavier a b =
      let wa = float_attr fl a.attrs "weight" fl.zero_float in
      let wb = float_attr fl b.attrs "weight" fl.zero_float in
      if fl.ne wa wb then fl.gt wa wb else ltb a.order b.order

  -- steps 4 and 5
  unfoldable pub by_weight : List Edge → Option Edge
  by_weight edges = or_try (first (sort heavier (filter_unconditional edges))) (first edges)

  unfoldable pub select_from : Outcome → Context → List Edge → Option Edge
  select_from outcome ctx [] = none
  select_from outcome ctx (e ∷ es) =
      or_try (find? (condition_holds (env_of outcome ctx)) (e ∷ es)) (
        or_try (by_label outcome.preferred_label (e ∷ es))
          (or_try (by_suggestion outcome.suggested_next_ids (e ∷ es)) (by_weight (e ∷ es))))

  unfoldable pub select : Graph → String → Outcome → Context → Option Edge
  select g node_id outcome ctx = select_from outcome ctx (out_edges g node_id)
