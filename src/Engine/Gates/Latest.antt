-- ===== src/Engine/Gates/Latest.antt =====
-- internal/attractor/engine.go: the status map of `checkGoalGates` and the visits it is made from.
use dfgo.Prelude.{
  String, true, List, [], ◌∷◌, ◌++◌, some, str_eq, eq_iff, ◌≡◌, ◌≢◌, ◌⊎◌, refl, ap, Bool-cases, inl,
  inr, Option-cases, arith, All,
}
use dfgo.Prelude.Dict.{Dict, get, put, get-put}
use dfgo.Runtime.Outcome.{StageStatus, is_success_status}
use dfgo.Runtime.Checkpoint.{VisitEntry}
use dfgo.Engine.Gates.{latest_from, satisfied}

-- The last visit of the node in the log ended with the status.
pub record IsLast (log : List VisitEntry) (id : String) (status : StageStatus) : Type 0 where
  pub before : List VisitEntry
  pub visit : VisitEntry
  pub after : List VisitEntry
  pub splits : log ≡ before ++ visit ∷ after
  pub of_node : visit.node_id ≡ id
  pub of_status : visit.status ≡ status
  pub none_after : All (λ (v : VisitEntry). v.node_id ≢ id) after

-- the status a map has for a node is that of its last visit, or was there before
latest_from-IsLast :
    (log : List VisitEntry) (latest : Dict StageStatus) (id : String) (st : StageStatus)
    → get (latest_from latest log) id ≡ some st
    → IsLast log id st ⊎ (get latest id ≡ some st) × All (λ (v : VisitEntry). v.node_id ≢ id) log
unfolding latest_from
latest_from-IsLast [] latest id st h = inr (h, tt)
latest_from-IsLast (v ∷ log) latest id st h =
    elim (latest_from-IsLast log (put latest v.node_id v.status) id st h) [
      | inl r ↦ inl (record {
        before = v ∷ r.before;
        visit = r.visit;
        after = r.after;
        splits = ap (λ l. v ∷ l) r.splits;
        of_node = r.of_node;
        of_status = r.of_status;
        none_after = r.none_after;
      })
      | inr (p, rest) ↦ elim (Bool-cases (str_eq v.node_id id)) [
        | inl e ↦ inl (record {
          before = [];
          visit = v;
          after = log;
          splits = refl;
          of_node = (eq_iff v.node_id id).0 e;
          of_status = ground (arith, get-put latest v.node_id id v.status, e, p);
          none_after = rest;
        })
        | inr e ↦ inr (
          ground (arith, get-put latest v.node_id id v.status, e, p),
          (λ q. cc (e, (eq_iff v.node_id id).1 q), rest),
        )
      ]
    ]

-- A node that the map calls satisfied was last visited with success.
pub satisfied-IsLast :
    (log : List VisitEntry) (id : String)
    → satisfied (get (latest_from [] log) id) ≡ true
    → (st : StageStatus) × IsLast log id st × (is_success_status st ≡ true)
unfolding get
satisfied-IsLast log id h = elim (Option-cases (get (latest_from [] log) id)) [
  | inl e ↦ absurd (cc (rw e at h))
  | inr (st, e) ↦ elim (latest_from-IsLast log [] id st e) [
    | inl r ↦ (st, r, rw e at h)
    | inr (p, q) ↦ cc
  ]
]
