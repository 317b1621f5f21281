-- ===== src/Matcher/Flow.antt =====
-- The control flow of the handlers in matcher.hpp: each step continues with a value or returns from
-- the handler early. A loop whose fuel ran out is a third case, so that it cannot pass for a result.
use ll_exp.Matcher.Types.{ProcessResult}
use ll_exp.Matcher.State.{Machine}

pub data Flow (A : Type 0) : Type 0 where
  next : A → Flow A
  exit : ProcessResult → Flow A
  out_of_fuel : Flow A

abbrev pub Exec : Type 0 → Type 0 → Type 0 → Type 0
Exec W S A = Machine W S → Flow A × Machine W S

abbrev pub continue_with :
    {W S A B : Type 0} → (A → Exec W S B) → Flow A × Machine W S → Flow B × Machine W S
continue_with f (next a, s) = f a s
continue_with f (exit r, s) = (exit r, s)
continue_with f (out_of_fuel, s) = (out_of_fuel, s)

infixl 5 ◌>>=◌ ◌>>◌
abbrev pub ◌>>=◌ : {W S A B : Type 0} → Exec W S A → (A → Exec W S B) → Exec W S B
◌>>=◌ m f s = continue_with f (m s)

abbrev pub ◌>>◌ : {W S B : Type 0} → Exec W S (Unit {0}) → Exec W S B → Exec W S B
m >> k = m >>= (λ _. k)

-- A step's postcondition: `P` on a value, `Q` on an early return; the fuel did not run out.
abbrev pub Ensures :
    {W S A : Type 0} (P : A → Machine W S → Type 0) (Q : ProcessResult → Machine W S → Type 0)
    → Flow A × Machine W S
    → Type 0
Ensures P Q (next a, s) = P a s
Ensures P Q (exit r, s) = Q r s
Ensures P Q (out_of_fuel, s) = ⊥

module _ {W S A B : Type 0} (P : A → Machine W S → Type 0)
    (Q : ProcessResult → Machine W S → Type 0) (R : B → Machine W S → Type 0) where
  pub Ensures-bind :
      (f : A → Exec W S B) (r : Flow A × Machine W S)
      → Ensures P Q r
      → ((a : A) (s : Machine W S) → P a s → Ensures R Q (f a s))
      → Ensures R Q (continue_with f r)
  Ensures-bind f (next a, s) h k = k a s h
  Ensures-bind f (exit r, s) h k = h
  Ensures-bind f (out_of_fuel, s) h k = h

-- A fact about the state that a step reaches, whatever its outcome, joins its postcondition.
pub Ensures-with :
    {W S A : Type 0} (P : A → Machine W S → Type 0) (Q : ProcessResult → Machine W S → Type 0)
    (T : Machine W S → Type 0) (r : Flow A × Machine W S)
    → Ensures P Q r
    → T r.1
    → Ensures (λ a s. P a s × T s) Q r
Ensures-with P Q T (next a, s) h t = (h, t)
Ensures-with P Q T (exit p, s) h t = h
Ensures-with P Q T (out_of_fuel, s) h t = h

-- A weaker postcondition.
pub Ensures-imp :
    {W S A : Type 0} (P : A → Machine W S → Type 0) (Q : ProcessResult → Machine W S → Type 0)
    (R : A → Machine W S → Type 0) (r : Flow A × Machine W S)
    → Ensures P Q r
    → ((a : A) (s : Machine W S) → P a s → R a s)
    → Ensures R Q r
Ensures-imp P Q R (next a, s) h k = k a s h
Ensures-imp P Q R (exit p, s) h k = h
Ensures-imp P Q R (out_of_fuel, s) h k = h

-- Both postconditions weakened.
pub Ensures-both :
    {W S A : Type 0} (P : A → Machine W S → Type 0) (Q : ProcessResult → Machine W S → Type 0)
    (P' : A → Machine W S → Type 0) (Q' : ProcessResult → Machine W S → Type 0)
    (r : Flow A × Machine W S)
    → Ensures P Q r
    → ((a : A) (s : Machine W S) → P a s → P' a s)
    → ((p : ProcessResult) (s : Machine W S) → Q p s → Q' p s)
    → Ensures P' Q' r
Ensures-both P Q P' Q' (next a, s) h k l = k a s h
Ensures-both P Q P' Q' (exit p, s) h k l = l p s h
Ensures-both P Q P' Q' (out_of_fuel, s) h k l = h
