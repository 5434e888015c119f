-- ===== src/Engine/History.antt =====
-- internal/attractor/engine.go: the visits and the completed nodes of a run.
use dfgo.Prelude.{
  ℕ, String, Bool, true, List, [], ◌∷◌, ◌++◌, Option, some, ◌≡◌, ap, sym, ◌∙◌, arith, ++_assoc,
  ++_nil,
}
use dfgo.Prelude.Dict.{Dict, get, put, get-put}
use dfgo.Model.Graph.{Graph}
use dfgo.Model.Attrs.{Floats}
use dfgo.Runtime.Checkpoint.{VisitEntry}
use dfgo.Engine.State.{RunError, World, Registry, State}
use dfgo.Engine.Step.{steps}
use dfgo.Engine.Step.Changes.{IsKept}
use dfgo.Engine.Step.Keeps.{steps-Holds}

-- The visit log of `t` continues that of `s`, and what is completed in `s` is in `t`.
pub record Extends {w : World} (s t : State w) : Type 0 where
  pub more : List VisitEntry
  pub continues : t.visit_log ≡ s.visit_log ++ more
  pub stays : (id : String) → get s.completed id ≡ some true → get t.completed id ≡ some true

record Extended (d0 : Dict Bool) (log0 : List VisitEntry) (d : Dict Bool) (log : List VisitEntry)
    : Type 0 where
  more : List VisitEntry
  continues : log ≡ log0 ++ more
  stays : (id : String) → get d0 id ≡ some true → get d id ≡ some true

put-true : (d : Dict Bool) (id j : String) → get d j ≡ some true → get (put d id true) j ≡ some true
put-true d id j h = ground (arith, get-put d id j true, h)

Extended-IsKept :
    (g : Graph) (d0 : Dict Bool) (log0 : List VisitEntry)
    → IsKept g (λ c d log. Extended d0 log0 d log)
Extended-IsKept g d0 log0 = record {
  visits = λ c d log v h. record {
    more = h.more ++ v ∷ [];
    continues = ap (λ l. l ++ v ∷ []) h.continues ∙ ++_assoc log0 h.more (v ∷ []);
    stays = h.stays;
  };
  completes = λ c d log id h. record {
    more = h.more;
    continues = h.continues;
    stays = λ j p. put-true d id j (h.stays j p);
  };
  counts = λ c d log id n there left h. h;
}

module _ (fl : Floats) {w : World} (preamble : String → String → String → List VisitEntry → String)
    (registry : Registry w) where
  -- However a run ends, its visit log is the one it started with and more visits behind it, and
  -- every node that was completed still is.
  pub steps-Extends :
      (fuel : ℕ) (g : Graph) (id : String) (s : State w) (x : Option RunError) (t : State w)
      → steps fl preamble registry fuel g id s ≡ some (x, t)
      → Extends s t
  steps-Extends fuel g id s x t e =
      let r =
        steps-Holds (Extended-IsKept g s.completed s.visit_log) fl preamble registry fuel id s x t e
          (record {
            held = record { more = []; continues = sym (++_nil s.visit_log); stays = λ j p. p };
          }) in
      record { more = r.held.more; continues = r.held.continues; stays = r.held.stays }
