-- ===== src/Engine/Lifecycle/Resume.antt =====
-- internal/attractor/engine.go: a run that goes on from a checkpoint.
use dfgo.Prelude.{
  String, Bool, true, List, [], ◌∷◌, ◌++◌, some, str_eq, eq_iff, map, ◌≡◌, ◌≢◌, refl, sym, ap, ◌∙◌,
  ++_assoc, ++_nil, Bool-cases, inl, inr, arith,
}
use dfgo.Prelude.Dict.{Dict, get, get-put, index, or_else}
use dfgo.Model.Graph.{Graph}
use dfgo.Runtime.Context.{Context, lookup, snapshot, lookup-merge_all, merge_all, store, append_log}
use dfgo.Engine.State.{World, State}
use dfgo.Engine.Node.{checkpoint, complete, complete_all}
use dfgo.Engine.Lifecycle.{initialize, fresh, restore, append_logs, initial_context}

-- What a resumed run has in common with the one that saved.
pub record Resumes {w : World} (g : Graph) (given : Dict String) (s t : State w) : Type 0 where
  pub same_counters : t.retry_counters ≡ s.retry_counters
  pub same_log : t.visit_log ≡ s.visit_log
  pub same_logs : t.pctx.logs ≡ s.pctx.logs
  pub same_completed :
      (id : String) → get s.completed id ≡ some true → get t.completed id ≡ some true
  pub context_wins :
      (key : String)
      → lookup t.pctx key ≡ or_else (lookup s.pctx key) (lookup (initial_context g given) key)

module _ {w : World} where
  complete_all-frame :
      (ids : List String) (s : State w)
      → ((complete_all ids s).retry_counters ≡ s.retry_counters)
        × ((complete_all ids s).visit_log ≡ s.visit_log)
        × ((complete_all ids s).pctx ≡ s.pctx)
  complete_all-frame [] s = (refl, refl, refl)
  complete_all-frame (id ∷ ids) s = complete_all-frame ids (complete id s)

  stays :
      (ids : List String) (s : State w) (j : String)
      → get s.completed j ≡ some true
      → get (complete_all ids s).completed j ≡ some true
  stays [] s j h = h
  stays (id ∷ ids) s j h =
      stays ids (complete id s) j (ground (arith, get-put s.completed id j true, h))

  -- the IDs of a set of completed nodes are completed again
  keys_complete :
      (d : Dict Bool) (s : State w) (j : String)
      → get d j ≡ some true
      → get (complete_all (map (λ (id, b). id) d) s).completed j ≡ some true
  unfolding get
  keys_complete [] s j h = cc
  keys_complete ((id, b) ∷ d) s j h = elim (Bool-cases (str_eq id j)) [
    | inl e ↦
        stays (map (λ (id, b). id) d) (complete id s) j
          (ground (arith, get-put s.completed id j true, e))
    | inr e ↦ keys_complete d (complete id s) j (rw (e, get) at h)
  ]

append_logs-entries : (c : Context) (es : List String) → (append_logs c es).entries ≡ c.entries
unfolding append_log
append_logs-entries c [] = refl
append_logs-entries c (e ∷ es) = append_logs-entries (append_log c e) es

append_logs-logs : (c : Context) (es : List String) → (append_logs c es).logs ≡ c.logs ++ es
unfolding append_log
append_logs-logs c [] = sym (++_nil c.logs)
append_logs-logs c (e ∷ es) = append_logs-logs (append_log c e) es ∙ ++_assoc c.logs (e ∷ []) es

initial_context-logs : (g : Graph) (given : Dict String) → (initial_context g given).logs ≡ []
unfolding merge_all store
initial_context-logs g given = elim (Bool-cases (str_eq (index g.attrs "goal") "")) [
  | inl e ↦ rw (e, initial_context) refl
  | inr e ↦ rw (e, initial_context) refl
]

module _ {w : World} (g : Graph) (resume current : String) (given : Dict String) (s : State w)
    (world : w.W) where
  -- what is restored before the nodes are completed
  base : State w
  base = record (fresh {w = w} g resume given world) {
    pctx =
        append_logs (merge_all (fresh {w = w} g resume given world).pctx (snapshot s.pctx))
          s.pctx.logs;
    retry_counters = s.retry_counters;
    visit_log = s.visit_log;
  }

  base-logs : base.pctx.logs ≡ s.pctx.logs
  unfolding base fresh merge_all
  base-logs =
      append_logs-logs (merge_all (initial_context g given) (snapshot s.pctx)) s.pctx.logs
      ∙ ap (λ l. l ++ s.pctx.logs) (initial_context-logs g given)

  base-lookup :
      (key : String)
      → lookup base.pctx key ≡ or_else (lookup s.pctx key) (lookup (initial_context g given) key)
  unfolding base fresh lookup snapshot
  base-lookup key =
      ap (λ d. get d key)
        (append_logs-entries (merge_all (initial_context g given) (snapshot s.pctx)) s.pctx.logs)
      ∙ lookup-merge_all (initial_context g given) (snapshot s.pctx) key

  restore-Resumes :
      Resumes g given s (restore (checkpoint current s) (fresh {w = w} g resume given world))
  unfolding restore checkpoint base
  restore-Resumes =
      let ids = map (λ (id, b). id) s.completed in
      let (counters, log, ctx) = complete_all-frame ids base in
      record {
        same_counters = counters;
        same_log = log;
        same_logs = ap (λ c. c.logs) ctx ∙ base-logs;
        same_completed = λ id h. keys_complete s.completed base id h;
        context_wins = λ key. ap (λ c. lookup c key) ctx ∙ base-lookup key;
      }

-- A run that is resumed with the checkpoint of a state has that state's retry counters, visit log
-- and context log, everything that was completed in it, and its context: a key has the value that
-- it had, and one that it did not have is as in a new run.
pub initialize-checkpoint :
    {w : World} (g : Graph) (generated resume current : String) (given : Dict String) (s : State w)
    (world : w.W)
    → resume ≢ ""
    → Resumes g given s (initialize g generated resume given (some (checkpoint current s)) world)
unfolding initialize
initialize-checkpoint g generated resume current given s world named =
    elim (Bool-cases (str_eq resume "")) [
      | inl e ↦ absurd (named ((eq_iff resume "").0 e))
      | inr e ↦ rw (e, initialize) (restore-Resumes g resume current given s world)
    ]
