-- ===== src/Dot/Parser/Monad/Keeps.antt =====
-- Invariants of the parser's actions, one rule for each way to build an action.
use dfgo.Prelude.{Bool, true, false, if◌then◌else◌}
use dfgo.Prelude.Result.{Result, ok, err}
use dfgo.Dot.Parser.Monad.{State, ParseError, Parse, pure, raise, peek, continue, ◌>>=◌}

-- `P` of the state that an action ends in, if it does not fail.
abbrev pub Ends {ℓ} : {A : Type 0} → (A → State → Type ℓ) → Result ParseError (A × State) → Type ℓ
Ends Q (ok (a, s)) = Q a s
Ends Q (err e) = Unit

pub record Keeps {A : Type 0} (P : State → Type 0) (m : Parse A) : Type 0 where
  pub at : (s : State) → P s → Ends (λ _. P) (m s)

module _ {P : State → Type 0} where
  pub Keeps-peek : Keeps P peek
  unfolding peek
  Keeps-peek = record { at = λ s h. h }

module _ {A : Type 0} {P : State → Type 0} where
  pub Keeps-pure : (a : A) → Keeps P (pure a)
  unfolding pure
  Keeps-pure a = record { at = λ s h. h }

  pub Keeps-raise : (e : ParseError) → Keeps P (raise {A = A} e)
  unfolding raise
  Keeps-raise e = record { at = λ s h. tt }

  pub Keeps-if : (b : Bool) (m n : Parse A) → Keeps P m → Keeps P n → Keeps P (if b then m else n)
  Keeps-if true m n h k = h
  Keeps-if false m n h k = k

module _ {A B : Type 0} {P : State → Type 0} where
  Ends-continue :
      (r : Result ParseError (A × State)) (f : A → Parse B)
      → Ends (λ _. P) r
      → ((a : A) → Keeps P (f a))
      → Ends (λ _. P) (continue r f)
  Ends-continue (ok (a, s)) f h k = (k a).at s h
  Ends-continue (err e) f h k = tt

  pub Keeps-bind :
      (m : Parse A) (f : A → Parse B) → Keeps P m → ((a : A) → Keeps P (f a)) → Keeps P (m >>= f)
  unfolding ◌>>=◌
  Keeps-bind m f h k = record { at = λ s p. Ends-continue (m s) f (h.at s p) k }

-- The same with a postcondition that names the value.
module _ {A B : Type 0} (Q : A → State → Type 0) (R : B → State → Type 0) where
  Ends-continue_with :
      (r : Result ParseError (A × State)) (f : A → Parse B)
      → Ends Q r
      → ((a : A) (s : State) → Q a s → Ends R (f a s))
      → Ends R (continue r f)
  Ends-continue_with (ok (a, s)) f h k = k a s h
  Ends-continue_with (err e) f h k = tt

  pub Ends-bind :
      (m : Parse A) (f : A → Parse B) (s : State)
      → Ends Q (m s)
      → ((a : A) (t : State) → Q a t → Ends R (f a t))
      → Ends R ((m >>= f) s)
  unfolding ◌>>=◌
  Ends-bind m f s h k = Ends-continue_with (m s) f h k

pub ruleset keeps_rules = (Keeps-peek, Keeps-pure, Keeps-raise, Keeps-if, Keeps-bind)
