-- ===== src/Base/Act.antt =====
-- Effectful code against collaborators that the program only calls through an interface.
--
-- Such code is a function of the calls made so far, the latest one at the head: what a
-- collaborator answers may depend on every call before it, so an interface's answers are
-- arbitrary functions of the history, and a theorem over all answers covers every
-- implementation, also one that other processes change in between.
use mathlib.Core.Path.{◌≡◌, refl, ap}
use mathlib.Core.Logic.{◌⊎◌, inl, inr}
use mathlib.Core.List.{List, ◌∷◌}

-- The result of code that returns `(A, error)`.
pub data Result (E A : Type 0) : Type 0 where
  ok : A → Result E A
  err : E → Result E A

-- To split on a result and keep the equation.
pub Result-cases :
    {E A : Type 0} (r : Result E A) → ((a : A) × (r ≡ ok a)) ⊎ ((e : E) × (r ≡ err e))
Result-cases (ok a) = inl (a, refl)
Result-cases (err e) = inr (e, refl)

-- A step on a state: it may fail, and the state that it leaves counts all the same.
abbrev pub Step : Type 0 → Type 0 → Type 0 → Type 0
Step S E A = S → Result E A × S

-- Code whose state is the list of the calls made so far.
abbrev pub Act : Type 0 → Type 0 → Type 0 → Type 0
Act C E A = Step (List C) E A

module _ {S E : Type 0} where
  infixl 5 ◌>>=◌ ◌>>◌
  abbrev pub ◌>>=◌ : {A B : Type 0} → Step S E A → (A → Step S E B) → Step S E B
  ◌>>=◌ m f h = let r = m h in elim r.0 [ ok a ↦ f a r.1 | err e ↦ (err e, r.1) ]

  abbrev pub ◌>>◌ : {A B : Type 0} → Step S E A → Step S E B → Step S E B
  m >> n = m >>= λ _. n

  abbrev pub pure : {A : Type 0} → A → Step S E A
  pure a h = (ok a, h)

  abbrev pub fail : {A : Type 0} → E → Step S E A
  fail e h = (err e, h)

  -- Run a step and go on with its error as a value (`x, err := f()`).
  abbrev pub attempt : {A : Type 0} → Step S E A → Step S E (Result E A)
  attempt m h = let r = m h in (ok r.0, r.1)

  -- What follows a step that succeeds, and what is left of one that fails.
  pub then_ok :
      {A B : Type 0} (m : Step S E A) (n : Step S E B) (h : S) {a : A}
      → (m h).0 ≡ ok a
      → ((m >> n) h).1 ≡ (n (m h).1).1
  then_ok {A = A} {B = B} m n h e =
      let both : Result E A → Result E B × S =
        λ x. elim x [ ok a ↦ n (m h).1 | err f ↦ (err f, (m h).1) ] in
      ap (λ x. (both x).1) e

  pub then_err :
      {A B : Type 0} (m : Step S E A) (n : Step S E B) (h : S) {f : E}
      → (m h).0 ≡ err f
      → ((m >> n) h).1 ≡ (m h).1
  then_err {A = A} {B = B} m n h e =
      let both : Result E A → Result E B × S =
        λ x. elim x [ ok a ↦ n (m h).1 | err f ↦ (err f, (m h).1) ] in
      ap (λ x. (both x).1) e

module _ {C E : Type 0} where
  -- Make a call: it is recorded, and its answer depends on the history before it.
  abbrev pub call : {A : Type 0} → C → (List C → Result E A) → Act C E A
  call c answer h = (answer h, c ∷ h)

  -- A read of the history that no step of `m` changes.
  abbrev pub Quiet : {B : Type 0} → (List C → B) → {A : Type 0} → Act C E A → Type 0
  Quiet view m = (h : List C) → view (m h).1 ≡ view h
