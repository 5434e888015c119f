-- ===== src/Tests/Model.antt =====
-- Laws of the graph, the selector, the conditions and the modes at concrete inputs.
use dfgo.Prelude.{false, [], ◌∷◌, none, ◌≡◌, ◌≢◌, ◌↔◌, refl, inl, inr, arith}
use dfgo.Prelude.Dict.{get, index}
use dfgo.Prelude.Result.{ok}
use dfgo.Dot.Lexer.{tokenize}
use dfgo.Dot.Lexer.Laws.{tokenize-total}
use dfgo.Cond.{Clause, Env, parse}
use dfgo.Cond.Print.{print, IsPlain}
use dfgo.Cond.Laws.{parse-print}
use dfgo.Model.Graph.{out_edges}
use dfgo.EdgeSelect.{
  select, select_from, condition_holds, by_label, by_suggestion, by_weight, env_of,
  filter_unconditional, heavier,
}
use dfgo.Prelude.Sort.{sort, insert}
use dfgo.Prelude.Text.{is_space}
use dfgo.Model.Attrs.{float_attr}
use dfgo.EdgeSelect.Chosen.{Chosen, select-Chosen, select-none_iff}
use dfgo.EdgeSelect.Weights.{FloatLaws}
use dfgo.Runtime.Outcome.{success_outcome}
use dfgo.Runtime.Context.{new_context}
use dfgo.Validate.Diagnostic.{has_errors}
use dfgo.Validate.Runner.{builtin_rules, run}
use dfgo.Validate.Sound.{IsRunnable, run-IsRunnable}
use dfgo.Tests.World.{ascii, tally, edge, two_nodes}

run-IsRunnable_example :
    (has_errors (run (builtin_rules []) two_nodes) ≡ false) ↔ IsRunnable two_nodes
run-IsRunnable_example = run-IsRunnable [] two_nodes

tally_laws : FloatLaws tally
tally_laws = record {
  ne_refl = λ a. ground arith;
  eq_of_ne = λ a b h. ground arith;
  gt_asym = λ a b h. ground arith;
  gt_neg_trans = λ a b c h k. ground arith;
  gt_total = λ a b h k. ground arith;
}

select-none_iff_example :
    (select tally two_nodes "e" success_outcome new_context ≡ none) ↔ (out_edges two_nodes "e" ≡ [])
select-none_iff_example = select-none_iff tally two_nodes "e" success_outcome new_context

abbrev a_clause : Clause
a_clause = record { key = "outcome"; op = "="; val = "SUCCESS" }

tokenize-total_example : tokenize ascii "a -> \"b" ≢ none
tokenize-total_example = tokenize-total ascii "a -> \"b"

a_clause-IsPlain : IsPlain a_clause
unfolding is_space
a_clause-IsPlain = record {
  key_chars = (refl, (refl, (refl, (refl, (refl, (refl, (refl, tt)))))));
  key_ne = λ e. cc;
  op_val = inr (inl refl, (refl, (refl, (refl, (refl, (refl, (refl, (refl, tt))))))), (λ e. cc));
}

parse-print_example : parse (print (a_clause ∷ a_clause ∷ [])) ≡ ok (a_clause ∷ a_clause ∷ [])
parse-print_example =
    parse-print (a_clause ∷ a_clause ∷ []) (a_clause-IsPlain, (a_clause-IsPlain, tt))

abbrev an_env : Env
an_env = record { outcome = "SUCCESS"; preferred_label = ""; context = [] }

select-Chosen_example :
    Chosen tally success_outcome new_context (out_edges two_nodes "s") (edge "s" "e" [] 0)
unfolding select select_from out_edges sort insert condition_holds by_label by_suggestion by_weight
    env_of filter_unconditional heavier float_attr index get
select-Chosen_example =
    select-Chosen tally tally_laws two_nodes "s" success_outcome new_context (edge "s" "e" [] 0)
      refl
