-- ===== src/Tests/Agent.antt =====
-- The loop detector at concrete windows.
use dfgo.Prelude.{String, true, [], ◌∷◌, ◌≡◌, ◌↔◌}
use dfgo.Agent.Detector.{Detector, detect}
use dfgo.Agent.Detector.Window.{IsLoop, detect-IsLoop}

detect-IsLoop_example :
    (detect ("x" ∷ "a" ∷ "b" ∷ "a" ∷ "b" ∷ []) ≡ true) ↔ IsLoop ("x" ∷ "a" ∷ "b" ∷ "a" ∷ "b" ∷ [])
detect-IsLoop_example = detect-IsLoop ("x" ∷ "a" ∷ "b" ∷ "a" ∷ "b" ∷ [])

abbrev plain : String → String
plain s = s

abbrev full : Detector
full = record { window = 2; signatures = "a" ∷ "b" ∷ [] }
