-- ===== src/Handlers/ManagerLoop.antt =====
-- internal/attractor/handler/manager_loop.go: the supervision of a child pipeline. The child, the
-- clock and the context that the child shares are parts of a world W.
pub mod Cycles
pub mod Course
use dfgo.Prelude.{
  ℕ, zero, suc, ◌-◌, String, Bool, true, false, str_eq, if◌then◌else◌, List, [], ◌∷◌, Option, some,
  none,
}
use dfgo.Prelude.Dict.{Dict, get, put, index}
use dfgo.Prelude.Result.{Result, ok, err}
use dfgo.Prelude.Text.{ℤ, pos, negsuc, append, split, trim_space}
use dfgo.Model.Graph.{Node, Graph, successors}
use dfgo.Model.Attrs.{string_attr, int_attr}
use dfgo.Cond
use dfgo.Cond.{Expr, CondError}
use dfgo.Runtime.Outcome.{
  Outcome, outcome_of, success, success_outcome, fail_outcome, deterministic, transient, canceled,
  status_text,
}
use dfgo.Runtime.Context.{Context, lookup, snapshot}

-- parseActions, as the list of the actions that are named
abbrev pub drop_empty : List String → List String
drop_empty [] = []
drop_empty (a ∷ rest) =
    let t = trim_space a in if str_eq t "" then drop_empty rest else t ∷ drop_empty rest

unfoldable pub parse_actions : String → List String
unfolding trim_space split
parse_actions s = drop_empty (split b',' s)

abbrev pub has_action : String → List String → Bool
has_action a [] = false
has_action a (b ∷ bs) = if str_eq a b then true else has_action a bs

-- `ChildEngine`, ctx.Err(), the select on the poll interval, and what the shared context holds.
pub record Manager : Type 1 where
  pub W : Type 0
  pub child : List String → W → Result String Outcome × W
  pub is_done : W → Bool × W
  pub wait : W → Bool × W
  pub pctx : W → Context
  pub error_text : CondError → String

-- The attributes of the node that the loop reads; the poll interval is the wait's own.
pub record Settings : Type 0 where
  pub children : List String
  pub observe : Bool
  pub waits : Bool
  pub stop : Option Expr

-- `for cycle := 1; cycle < maxCycles`
abbrev pub cycles_after_first : ℤ → ℕ
cycles_after_first (pos n) = n - 1
cycles_after_first (negsuc n) = 0

abbrev pub canceled_outcome : Outcome
canceled_outcome = fail_outcome "manager_loop canceled" canceled

abbrev pub child_error : String → Outcome
child_error e = fail_outcome (append "manager_loop child error: " e) transient

module _ (m : Manager) where
  open m use {W, child, is_done, wait, pctx}

  abbrev pub stops : Option Expr → Outcome → W → Bool
  stops none outcome w = false
  stops (some e) outcome w = Cond.eval e (record {
    outcome = status_text outcome.status;
    preferred_label = "";
    context = snapshot (pctx w);
  })

  -- the child's status in the context; a missing key reads as the empty text
  abbrev pub child_status : W → String
  child_status w = elim (lookup (pctx w) "stack.child.status") [ none ↦ "" | some s ↦ s ]

  -- `none` where the loop goes on
  unfoldable pub observed : Option Expr → Outcome → W → Option Outcome
  unfolding lookup snapshot
  observed stop outcome w =
      if str_eq (child_status w) "SUCCESS"
      then some success_outcome
      else if str_eq (child_status w) "FAIL"
      then some (fail_outcome "manager_loop: child failed" transient)
      else if stops stop outcome w
      then some success_outcome
      else none

  abbrev pub waited : Bool → W → Bool × W
  waited true w = wait w
  waited false w = (true, w)

  abbrev pub observed_if : Bool → Option Expr → Outcome → W → Option Outcome
  observed_if true stop outcome w = observed stop outcome w
  observed_if false stop outcome w = none

  -- The supervision loop, with so many cycles left.
  unfoldable pub supervise : Settings → ℕ → Outcome → W → Outcome × W
  unfolding observed
  supervise s zero outcome w = (fail_outcome "manager_loop: max cycles exceeded" transient, w)
  supervise s (suc left) outcome w =
      let (ended, w1) = is_done w in
      if ended then (canceled_outcome, w1) else elim (observed_if s.observe s.stop outcome w1) [
        | some o ↦ (o, w1)
        | none ↦
            let (elapsed, w2) = waited s.waits w1 in
            let (r, w3) = child s.children w2 in
            if elapsed
            then elim r [ err e ↦ (child_error e, w3) | ok o ↦ supervise s left o w3 ]
            else (canceled_outcome, w2)
      ]

  unfoldable pub manage : Settings → ℤ → W → Outcome × W
  unfolding supervise
  manage s max_cycles w =
      let (r, w1) = child s.children w in
      elim r [
        | err e ↦ (child_error e, w1)
        | ok o ↦ supervise s (cycles_after_first max_cycles) o w1
      ]

  abbrev pub parse_stop : String → Result CondError (Option Expr)
  parse_stop text =
      if str_eq text ""
      then ok none
      else elim (Cond.parse text) [ ok e ↦ ok (some e) | err x ↦ err x ]

  -- `Execute`, where the engine has set the child
  unfoldable pub execute : Node → Graph → W → Outcome × W
  unfolding manage string_attr int_attr successors parse_actions
  execute n g w =
      let children = successors g n.id in
      let actions = parse_actions (string_attr n.attrs "manager.actions" "observe,wait") in
      elim children [
        | [] ↦ (success_outcome, w)
        | c ∷ cs ↦ elim (parse_stop (string_attr n.attrs "manager.stop_condition" "")) [
          | err x ↦ (
            fail_outcome (append "manager_loop: invalid stop_condition: " (m.error_text x))
                deterministic,
            w,
          )
          | ok stop ↦
              manage
                (record {
                  children = c ∷ cs;
                  observe = has_action "observe" actions;
                  waits = has_action "wait" actions;
                  stop = stop;
                })
                (int_attr n.attrs "manager.max_cycles" (pos 1000)) w
        ]
      ]

-- `Execute` in stub mode, without a child
abbrev pub stub_outcome : Outcome
stub_outcome = record success_outcome { notes = "manager_loop stub: no child engine" }
