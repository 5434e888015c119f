-- ===== src/Agent/Detector.antt =====
-- internal/agent/loop/detector.go: loops in the calls of tools. The signature of a call, a SHA-256
-- sum in hexadecimal, is a parameter.
pub mod Window
use dfgo.Prelude.{
  ℕ, zero, suc, ◌-◌, String, Bool, true, false, not, ◌&&◌, ◌||◌, leb, List, [], ◌∷◌, ◌++◌, str_eq,
  length, drop, if◌then◌else◌,
}
use dfgo.Prelude.Text.{ℤ, pos, negsuc, append}

pub record Detector : Type 0 where
  pub window : ℕ
  pub signatures : List String

-- a size that is not positive stands for 10
unfoldable pub new_detector : ℤ → Detector
new_detector (pos zero) = record { window = 10; signatures = [] }
new_detector (pos (suc n)) = record { window = suc n; signatures = [] }
new_detector (negsuc n) = record { window = 10; signatures = [] }

unfoldable pub last_first : List String → List String → List String
last_first [] acc = acc
last_first (s ∷ ss) acc = last_first ss (s ∷ acc)

-- signatures[n-1], signatures[n-2] and so on, where there are as many
abbrev pub period_one : List String → Bool
period_one (a ∷ b ∷ c ∷ _) = str_eq a b && str_eq b c
period_one _ = false

abbrev pub period_two : List String → Bool
period_two (a ∷ b ∷ c ∷ d ∷ _) = str_eq a c && str_eq b d && not (str_eq a b)
period_two _ = false

abbrev pub period_three : List String → Bool
period_three (a ∷ b ∷ c ∷ d ∷ e ∷ f ∷ _) =
    str_eq a d && str_eq b e && str_eq c f && not (str_eq a b && str_eq b c)
period_three _ = false

abbrev pub detect_in : List String → Bool
detect_in ss = period_one ss || period_two ss || period_three ss

unfoldable pub detect : List String → Bool
detect signatures = detect_in (last_first signatures [])

abbrev pub trim : ℕ → List String → List String
trim window ss = if leb (length ss) window then ss else drop (length ss - window) ss

module _ (hash : String → String) where
  unfoldable pub record_call : Detector → String → String → Bool × Detector
  record_call d tool_name args =
      let sig = hash (append tool_name (append ":" args)) in
      let kept = trim d.window (d.signatures ++ sig ∷ []) in
      (detect kept, record d { signatures = kept })

unfoldable pub reset : Detector → Detector
reset d = record d { signatures = [] }
