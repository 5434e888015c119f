-- ===== src/Handlers/FanIn/Best.antt =====
-- internal/attractor/handler/fan_in.go: which branch is best.
use dfgo.Prelude.{
  String, All-mono, ◌↔◌, false, List, [], ◌∷◌, Option, some, str_eq, ◌≡◌, ◌≢◌, refl, Bool-cases,
  inl, inr, All, eq_iff,
}
use mathlib.Core.List.{Perm}
use dfgo.Prelude.Dict.{Dict}
use dfgo.Prelude.Sort.{sort, sort-IsSorted, sort-perm, All-of_sort}
use dfgo.Runtime.Outcome.{success, fail, Outcome, is_success}
use dfgo.Runtime.Context.{Context, lookup, store, lookup-store}
use dfgo.Handlers.FanIn.{Ranked, better, verdict, conclude, execute}
use dfgo.Handlers.FanIn.Rank.{
  IsGood, IsNoRival, better-IsOrder, better-IsNoRival, IsGood-true, true-IsGood, verdict_first,
}

-- the status of what is concluded, for a best branch that is good or not
record Concluded (o r : Outcome) : Type 0 where
  succeeds : (r.status ≡ success) ↔ IsGood o.status
  fails : (r.status ≡ fail) ↔ (IsGood o.status → ⊥)

verdict-Concluded :
    (best : Ranked) (rs : List Ranked)
    → All (IsNoRival best) rs
    → Concluded best.1 (verdict (best ∷ rs))
verdict-Concluded best rs k = elim (Bool-cases (is_success best.1)) [
  | inl good ↦
      rw (verdict, verdict_first best rs k, good)
        (record {
          succeeds = (λ e. IsGood-true best.1.status good, λ g. refl);
          fails = (λ e. cc, λ n. absurd (n (IsGood-true best.1.status good)));
        })
  | inr bad ↦
      rw (verdict, verdict_first best rs k, bad)
        (record {
          succeeds = (λ e. cc, λ g. let t = true-IsGood g in cc);
          fails = (λ e g. let t = true-IsGood g in cc, λ n. refl);
        })
]

-- What the fan-in makes of the branches' results: the best is one of them and has no rival among
-- them, its ID is stored, and the fan-in's status is success exactly if the best branch is good.
pub record IsFannedIn (results : Dict Outcome) (r : Outcome × Context) : Type 0 where
  pub best : Ranked
  pub others : List Ranked
  pub is_one : Perm (best ∷ others) results
  pub no_rival : All (IsNoRival best) results
  pub stored : lookup r.1 "parallel.fan_in.best_id" ≡ some best.0
  pub succeeds : (r.0.status ≡ success) ↔ IsGood best.1.status
  pub fails : (r.0.status ≡ fail) ↔ (IsGood best.1.status → ⊥)

sorted-IsFannedIn :
    (marshal : Outcome → String) (c : Context) (results : Dict Outcome) (sorted : List Ranked)
    → sort better results ≡ sorted
    → results ≢ []
    → IsFannedIn results (conclude marshal c sorted)
sorted-IsFannedIn marshal c results [] e h = absurd (h (nil_of_sort results e))
  where
    nil_of_sort : (rs : List Ranked) → sort better rs ≡ [] → rs ≡ []
    nil_of_sort [] p = refl
    nil_of_sort (r ∷ rs) p = absurd (All-of_sort better (λ _. ⊥) (r ∷ rs) (rw p tt)).0
sorted-IsFannedIn marshal c results ((id, o) ∷ rest) e h =
    let rivals : All (IsNoRival (id, o)) rest =
      All-mono _ _ (better-IsNoRival (id, o)) rest
        (rw e at (sort-IsSorted better better-IsOrder results)).0 in
    let ends = verdict-Concluded (id, o) rest rivals in
    record {
      best = (id, o);
      others = rest;
      is_one = rw e at (sort-perm better results);
      no_rival =
          All-of_sort better (IsNoRival (id, o)) results
            (rw e (better-IsNoRival (id, o) (id, o) irrefl, rivals));
      stored = stored;
      succeeds = ends.succeeds;
      fails = ends.fails;
    }
  where
    irrefl : better (id, o) (id, o) ≡ false
    irrefl = elim (Bool-cases (better (id, o) (id, o))) [
      | inl b ↦ better-IsOrder.asym (id, o) (id, o) b
      | inr b ↦ b
    ]

    stored : lookup (conclude marshal c ((id, o) ∷ rest)).1 "parallel.fan_in.best_id" ≡ some id
    stored =
        rw
          (
            lookup-store (store c "parallel.fan_in.best_id" id) "parallel.fan_in.best_outcome"
                "parallel.fan_in.best_id" (marshal o),
            lookup-store c "parallel.fan_in.best_id" "parallel.fan_in.best_id" id,
          )
          refl

module _ (marshal : Outcome → String) (unmarshal : String → Option (Dict Outcome)) where
  -- Where results of the fan-out are in the context and can be read, and there are some, the
  -- fan-in stores the ID of one of the branches, such that no other has a status above its own
  -- (SUCCESS, PARTIAL_SUCCESS, RETRY, FAIL, any other text, in this order), nor one as high and an
  -- ID before its own; and it succeeds exactly if that branch did, in full or in part, and fails
  -- exactly otherwise.
  pub execute-IsFannedIn :
      (c : Context) (raw : String) (results : Dict Outcome)
      → lookup c "parallel.results" ≡ some raw
      → raw ≢ ""
      → unmarshal raw ≡ some results
      → results ≢ []
      → IsFannedIn results (execute marshal unmarshal c)
  unfolding execute
  execute-IsFannedIn c raw results p q r h = elim (Bool-cases (str_eq raw "")) [
    | inl e ↦ absurd (q ((eq_iff raw "").0 e))
    | inr e ↦
        rw (p, e, r, execute) (sorted-IsFannedIn marshal c results (sort better results) refl h)
  ]
