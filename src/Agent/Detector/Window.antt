-- ===== src/Agent/Detector/Window.antt =====
-- internal/agent/loop/detector.go: the window and what is detected in it.
use dfgo.Prelude.{
  ℕ, ◌-◌, ◌≤◌, String, Bool, true, false, leb, List, [], ◌∷◌, ◌++◌, str_eq, eq_iff, length,
  length-drop, not, ◌&&◌, eq_refl, ◌≡◌, ◌≢◌, ◌↔◌, ◌⊎◌, ◌∙◌, sym, ap, ++_nil, ++_assoc, refl,
  Bool-cases, inl, inr, arith,
}
use dfgo.Prelude.Text.{append}
use dfgo.Agent.Detector.{Detector, record_call, detect, trim, last_first, detect_in}

trim_bound : (window : ℕ) (ss : List String) → length (trim window ss) ≤ window
trim_bound window ss = elim (Bool-cases (leb (length ss) window)) [
  | inl b ↦ rw (b, trim) (ground (arith, b))
  | inr b ↦ rw (b, trim) (ground (arith, b, length-drop (length ss - window) ss))
]

last_first-append :
    (xs ys acc : List String) → last_first (xs ++ ys) acc ≡ last_first ys (last_first xs acc)
unfolding last_first
last_first-append [] ys acc = refl
last_first-append (x ∷ xs) ys acc = last_first-append xs ys (x ∷ acc)

last_first-twice :
    (xs acc zs : List String) → last_first (last_first xs acc) zs ≡ last_first acc (xs ++ zs)
unfolding last_first
last_first-twice [] acc zs = refl
last_first-twice (x ∷ xs) acc zs = last_first-twice xs (x ∷ acc) zs

-- read back from the end
last_first-back : (ss rs : List String) → last_first ss [] ≡ rs → ss ≡ last_first rs []
unfolding last_first
last_first-back ss rs e =
    sym (ap (λ l. last_first l []) (sym e) ∙ last_first-twice ss [] [] ∙ ++_nil ss)

last_first-snoc : (xs ys : List String) → last_first xs ys ≡ last_first xs [] ++ ys
unfolding last_first
last_first-snoc [] ys = refl
last_first-snoc (x ∷ xs) ys =
    last_first-snoc xs (x ∷ ys)
    ∙ sym
        (ap (λ l. l ++ ys) (last_first-snoc xs (x ∷ [])) ∙ ++_assoc (last_first xs []) (x ∷ []) ys)

-- What stands at the end of the window.
pub data IsLoop (ss : List String) : Type 0 where
  one : (before : List String) (a : String) → ss ≡ before ++ a ∷ a ∷ a ∷ [] → IsLoop ss
  two :
      (before : List String) (a b : String) → a ≢ b → ss ≡ before ++ a ∷ b ∷ a ∷ b ∷ [] → IsLoop ss
  three :
      (before : List String) (a b c : String)
      → ((a ≢ b) ⊎ (b ≢ c))
      → ss ≡ before ++ a ∷ b ∷ c ∷ a ∷ b ∷ c ∷ []
      → IsLoop ss

both : (p q : Bool) → p && q ≡ true → (p ≡ true) × (q ≡ true)
both p q h = ground (arith, h)

IsLoop-of_one :
    (ss rest : List String) (a b c : String)
    → last_first ss [] ≡ a ∷ b ∷ c ∷ rest
    → str_eq a b && str_eq b c ≡ true
    → IsLoop ss
unfolding last_first
IsLoop-of_one ss rest a b c e h =
    let p = both (str_eq a b) (str_eq b c) h in
    IsLoop.one (last_first rest []) c (
      last_first-back ss (a ∷ b ∷ c ∷ rest) e
      ∙ last_first-snoc rest (c ∷ b ∷ a ∷ [])
      ∙ ap (λ l. last_first rest [] ++ l) (cc ((eq_iff a b).0 p.0, (eq_iff b c).0 p.1)))

IsLoop-of_two :
    (ss rest : List String) (a b c d : String)
    → last_first ss [] ≡ a ∷ b ∷ c ∷ d ∷ rest
    → str_eq a c && str_eq b d && not (str_eq a b) ≡ true
    → IsLoop ss
unfolding last_first
IsLoop-of_two ss rest a b c d e h =
    let p : (str_eq a c ≡ true) × (str_eq b d ≡ true) × (str_eq a b ≡ false) = ground (arith, h) in
    IsLoop.two (last_first rest []) b a (λ q. cc (p.2, (eq_iff a b).1 (sym q)))
      (last_first-back ss (a ∷ b ∷ c ∷ d ∷ rest) e
        ∙ last_first-snoc rest (d ∷ c ∷ b ∷ a ∷ [])
        ∙ ap (λ l. last_first rest [] ++ l) (cc ((eq_iff a c).0 p.0, (eq_iff b d).0 p.1)))

IsLoop-of_three :
    (ss rest : List String) (a b c d e f : String)
    → last_first ss [] ≡ a ∷ b ∷ c ∷ d ∷ e ∷ f ∷ rest
    → str_eq a d && str_eq b e && str_eq c f && not (str_eq a b && str_eq b c) ≡ true
    → IsLoop ss
unfolding last_first
IsLoop-of_three ss rest a b c d e f q h =
    let p : (str_eq a d ≡ true)
        × (str_eq b e ≡ true)
        × (str_eq c f ≡ true)
        × (str_eq a b && str_eq b c ≡ false) =
      ground (arith, h) in
    IsLoop.three (last_first rest []) c b a (differ p.3) (
      last_first-back ss (a ∷ b ∷ c ∷ d ∷ e ∷ f ∷ rest) q
      ∙ last_first-snoc rest (f ∷ e ∷ d ∷ c ∷ b ∷ a ∷ [])
      ∙ ap (λ l. last_first rest [] ++ l)
          (cc ((eq_iff a d).0 p.0, (eq_iff b e).0 p.1, (eq_iff c f).0 p.2)))
  where
    differ : str_eq a b && str_eq b c ≡ false → (c ≢ b) ⊎ (b ≢ a)
    differ r = elim (Bool-cases (str_eq a b)) [
      | inr x ↦ inr (λ s. cc (x, (eq_iff a b).1 (sym s)))
      | inl x ↦ inl (λ s. absurd (ground (arith, r, x, (eq_iff b c).1 (sym s))))
    ]

IsLoop-of_detect : (ss rs : List String) → last_first ss [] ≡ rs → detect_in rs ≡ true → IsLoop ss
IsLoop-of_detect ss [] e h = cc
IsLoop-of_detect ss (a ∷ []) e h = cc
IsLoop-of_detect ss (a ∷ b ∷ []) e h = cc
IsLoop-of_detect ss (a ∷ b ∷ c ∷ []) e h = IsLoop-of_one ss [] a b c e (ground (arith, h))
IsLoop-of_detect ss (a ∷ b ∷ c ∷ d ∷ []) e h = elim (Bool-cases (str_eq a b && str_eq b c)) [
  | inl p ↦ IsLoop-of_one ss (d ∷ []) a b c e p
  | inr p ↦ IsLoop-of_two ss [] a b c d e (ground (arith, h, p))
]
IsLoop-of_detect ss (a ∷ b ∷ c ∷ d ∷ x ∷ []) e h = elim (Bool-cases (str_eq a b && str_eq b c)) [
  | inl p ↦ IsLoop-of_one ss (d ∷ x ∷ []) a b c e p
  | inr p ↦ IsLoop-of_two ss (x ∷ []) a b c d e (ground (arith, h, p))
]
IsLoop-of_detect ss (a ∷ b ∷ c ∷ d ∷ x ∷ y ∷ rest) e h =
    elim (Bool-cases (str_eq a b && str_eq b c)) [
      | inl p ↦ IsLoop-of_one ss (d ∷ x ∷ y ∷ rest) a b c e p
      | inr p ↦ elim (Bool-cases (str_eq a c && str_eq b d && not (str_eq a b))) [
        | inl q ↦ IsLoop-of_two ss (x ∷ y ∷ rest) a b c d e q
        | inr q ↦ IsLoop-of_three ss rest a b c d x y e (ground (arith, h, p, q))
      ]
    ]

differing : (x y : String) → x ≢ y → str_eq x y ≡ false
differing x y d = ground (arith, d, (eq_iff x y).0)

-- A loop is detected exactly if the window ends with one signature three times, with two different
-- ones twice, or with three, not all the same, twice.
pub detect-IsLoop : (ss : List String) → (detect ss ≡ true) ↔ IsLoop ss
unfolding detect last_first
detect-IsLoop ss = (IsLoop-of_detect ss (last_first ss []) refl, back)
  where
    back : IsLoop ss → detect_in (last_first ss []) ≡ true
    back (IsLoop.one before a e) =
        rw (e, last_first-append before (a ∷ a ∷ a ∷ []) []) (ground (arith, eq_refl a))
    back (IsLoop.two before a b d e) =
        rw (e, last_first-append before (a ∷ b ∷ a ∷ b ∷ []) [])
          (ground (arith, eq_refl a, eq_refl b, differing b a (λ p. d (sym p))))
    back (IsLoop.three before a b c d e) =
        rw (e, last_first-append before (a ∷ b ∷ c ∷ a ∷ b ∷ c ∷ []) [])
          (ground (arith, eq_refl a, eq_refl b, eq_refl c, d, (eq_iff c b).0, (eq_iff b a).0))

-- However often calls are recorded, no more signatures are kept than the window holds.
pub length-record_call :
    (hash : String → String) (d : Detector) (tool_name args : String)
    → length (record_call hash d tool_name args).1.signatures ≤ d.window
unfolding record_call
length-record_call hash d tool_name args =
    trim_bound d.window (d.signatures ++ hash (append tool_name (append ":" args)) ∷ [])
