-- ===== src/Llm/Retry/Attempts.antt =====
-- internal/llm/middleware.go: the calls that the retry middleware makes.
use dfgo.Prelude.{
  ℕ, zero, suc, ◌+◌, ◌≤◌, ◌<◌, String, Bool, true, false, List, [], ◌∷◌, ◌++◌, length, All, ◌≡◌,
  refl, ap, ◌∙◌, inl, inr, Bool-cases, arith, ++_assoc,
}
use mathlib.Core.Path.{subst}
use dfgo.Prelude.Text.{pos}
use dfgo.Prelude.Result.{Result, ok, err, Result-cases}
use dfgo.Llm.Errors.{Error, nil, other, sdk, SdkKind, is_retryable}
use dfgo.Llm.Retry.{Caller, attempts, retry}

-- What happens at the caller: a call, with what it returned, and the wait of an attempt, with
-- whether the delay has passed (else the context has ended).
pub data Entry (A : Type 0) : Type 0 where
  called : Result Error A → Entry A
  waited : ℕ → Bool → Entry A

-- The same caller, which keeps what has happened.
abbrev pub logged : {W A : Type 0} → Caller W A → Caller (List (Entry A) × W) A
logged c = record {
  call = λ (log, w). let (r, w1) = c.call w in (r, (log ++ called r ∷ [], w1));
  wait =
      λ attempt (log, w). let (b, w1) = c.wait attempt w in (b, (log ++ waited attempt b ∷ [], w1));
  aborted = c.aborted;
}

-- Attempts, from a number on, that have failed and whose delay has passed.
abbrev pub failed : {A : Type 0} → ℕ → List Error → List (Entry A)
failed attempt [] = []
failed attempt (e ∷ es) = called (err e) ∷ waited attempt true ∷ failed (suc attempt) es

-- Which answer a caller of the middleware gets, after so many failures before the last call and of
-- so many that there may be: what the last call returned, without a further wait, or the AbortError
-- where the context has ended in the wait behind it.
pub data IsAnswer {A : Type 0} (n : ℕ) (abort_message : String) (attempt failures : ℕ)
    (last r : Result Error A) : List (Entry A) → Type 0 where
  success : (a : A) → last ≡ ok a → r ≡ last → IsAnswer n abort_message attempt failures last r []
  hopeless :
      (e : Error)
      → last ≡ err e
      → is_retryable e ≡ false
      → r ≡ last
      → IsAnswer n abort_message attempt failures last r []
  exhausted : failures ≡ n → r ≡ last → IsAnswer n abort_message attempt failures last r []
  aborted :
      (e : Error)
      → last ≡ err e
      → is_retryable e ≡ true
      → failures < n
      → r ≡ err (sdk SdkKind.abort abort_message (other "context canceled"))
      → IsAnswer n abort_message attempt failures last r (waited (attempt + failures) false ∷ [])

pub record IsRetried {A : Type 0} (n : ℕ) (abort_message : String) (attempt : ℕ)
    (before after : List (Entry A)) (r : Result Error A) : Type 0 where
  pub failures : List Error
  pub last : Result Error A
  pub behind : List (Entry A)
  pub calls : after ≡ before ++ (failed attempt failures ++ called last ∷ behind)
  pub worth : All (λ e. is_retryable e ≡ true) failures
  pub few : length failures ≤ n
  pub answer : IsAnswer n abort_message attempt (length failures) last r behind

module _ {W A : Type 0} (c : Caller W A) where
  IsRetried-one :
      (n attempt : ℕ) (before : List (Entry A)) (last r : Result Error A)
      → IsAnswer n c.aborted attempt 0 last r []
      → IsRetried n c.aborted attempt before (before ++ called last ∷ []) r
  IsRetried-one n attempt before last r a = record {
    failures = [];
    last = last;
    behind = [];
    calls = refl;
    worth = tt;
    few = omega arith;
    answer = a;
  }

  IsRetried-aborted :
      (n attempt : ℕ) (before : List (Entry A)) (e : Error)
      → is_retryable e ≡ true
      → IsRetried
          (suc n)
          c.aborted
          attempt
          before
          ((before ++ called (err e) ∷ []) ++ waited attempt false ∷ [])
          (err (sdk SdkKind.abort c.aborted (other "context canceled")))
  IsRetried-aborted n attempt before e worth = record {
    failures = [];
    last = err e;
    behind = waited (attempt + 0) false ∷ [];
    calls =
        let same : attempt ≡ attempt + 0 = omega arith in
        ++_assoc before (called (err e) ∷ []) (waited attempt false ∷ [])
        ∙ ap (λ k. before ++ (called (err e) ∷ waited k false ∷ [])) same;
    worth = tt;
    few = omega arith;
    answer = aborted e refl worth (omega arith) refl;
  }

  IsAnswer-suc :
      (n k attempt : ℕ) (last r : Result Error A) (behind : List (Entry A))
      → IsAnswer n c.aborted (suc attempt) k last r behind
      → IsAnswer (suc n) c.aborted attempt (suc k) last r behind
  IsAnswer-suc n k attempt last r behind (success a p q) = success a p q
  IsAnswer-suc n k attempt last r behind (hopeless e p h q) = hopeless e p h q
  IsAnswer-suc n k attempt last r behind (exhausted p q) = exhausted (ap suc p) q
  IsAnswer-suc n k attempt last r behind (aborted e p h l q) =
      let same : attempt + suc k ≡ suc attempt + k = omega arith in
      subst (λ i. IsAnswer (suc n) c.aborted attempt (suc k) last r (waited i false ∷ [])) same
        (aborted e p h (omega (arith, l)) q)

  IsRetried-again :
      (n attempt : ℕ) (e : Error) (x : Result Error A) (b : Bool) (before after : List (Entry A))
      (r : Result Error A)
      → is_retryable e ≡ true
      → x ≡ err e
      → b ≡ true
      → IsRetried n c.aborted
          (suc attempt)
          ((before ++ called x ∷ []) ++ waited attempt b ∷ [])
          after
          r
      → IsRetried (suc n) c.aborted attempt before after r
  IsRetried-again n attempt e x b before after r worth p q h = record {
    failures = e ∷ h.failures;
    last = h.last;
    behind = h.behind;
    calls =
        let rest = failed (suc attempt) h.failures ++ called h.last ∷ h.behind in
        h.calls
        ∙ ++_assoc (before ++ called x ∷ []) (waited attempt b ∷ []) rest
        ∙ ++_assoc before (called x ∷ []) (waited attempt b ∷ rest)
        ∙ ap (λ y. before ++ (called y ∷ waited attempt b ∷ rest)) p
        ∙ ap (λ y. before ++ (called (err e) ∷ waited attempt y ∷ rest)) q;
    worth = (worth, h.worth);
    few = omega (arith, h.few);
    answer = IsAnswer-suc n (length h.failures) attempt h.last r h.behind h.answer;
  }

  -- whatever the state before, the log after and the result of the loop fit together
  attempts-IsRetried :
      (n attempt : ℕ) (last_err : Error) (before : List (Entry A)) (w : W)
      → let (r, s) = attempts (logged c) (suc n) attempt last_err (before, w) in
        IsRetried n c.aborted attempt before s.0 r
  unfolding attempts
  attempts-IsRetried zero attempt last_err before w = elim (Result-cases (c.call w).0) [
    | inl (a, e) ↦
        rw (e, attempts, e) (IsRetried-one 0 attempt before (ok a) (ok a) (success a refl refl))
    | inr (e, p) ↦ elim (Bool-cases (is_retryable e)) [
      | inl worth ↦
          rw (p, attempts, p, worth)
            (IsRetried-one 0 attempt before (err e) (err e) (exhausted refl refl))
      | inr lost ↦
          rw (p, attempts, p, lost)
            (IsRetried-one 0 attempt before (err e) (err e) (hopeless e refl lost refl))
    ]
  ]
  attempts-IsRetried (suc k) attempt last_err before w = elim (Result-cases (c.call w).0) [
    | inl (a, e) ↦
        rw (e, attempts, e)
          (IsRetried-one (suc k) attempt before (ok a) (ok a) (success a refl refl))
    | inr (e, p) ↦ elim (Bool-cases (is_retryable e)) [
      | inl worth ↦ elim (Bool-cases (c.wait attempt (c.call w).1).0) [
        | inl elapsed ↦
            rw (attempts, p, worth, elapsed)
              (IsRetried-again k attempt e (c.call w).0 (c.wait attempt (c.call w).1).0 before _ _
                worth p elapsed
                (attempts-IsRetried k (suc attempt) e
                  ((before ++ called (c.call w).0 ∷ [])
                    ++ waited attempt (c.wait attempt (c.call w).1).0 ∷ [])
                  (c.wait attempt (c.call w).1).1))
        | inr ended ↦ rw (p, attempts, p, worth, ended) (IsRetried-aborted k attempt before e worth)
      ]
      | inr lost ↦
          rw (p, attempts, p, lost)
            (IsRetried-one (suc k) attempt before (err e) (err e) (hopeless e refl lost refl))
    ]
  ]

  -- With max_retries = n, not negative, and from any state: the middleware calls the inner adapter
  -- at least once and at most n + 1 times; each call but the last has returned an error worth a
  -- retry, and the delay of its attempt, counted from 0, has passed behind it; and the caller gets
  -- what the last call returned, without a further wait, where that is a response, an error that is
  -- not worth a retry, or the answer to attempt n + 1; or else an AbortError, which it gets exactly
  -- where attempts were left, the last call's error was worth one of them, and the context ended in
  -- the wait behind it.
  pub retry-IsRetried :
      (n : ℕ) (before : List (Entry A)) (w : W)
      → let (r, s) = retry (logged c) (pos n) (before, w) in IsRetried n c.aborted 0 before s.0 r
  unfolding retry
  retry-IsRetried n before w = attempts-IsRetried n 0 nil before w
