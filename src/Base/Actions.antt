-- ===== src/Base/Actions.antt =====
-- `Result`, and a mutating method as a function to its result and the state it leaves behind.
use mathlib.Core.Path.{◌≡◌, refl}
use mathlib.Core.Option.{Option, none, some}

pub data Result (E A : Type 0) : Type 0 where
  ok : A → Result E A
  err : E → Result E A

-- `fn f(&mut self, ..) -> Result<A>`: what was written before an early return stays written.
abbrev Action : Type 0 → Type 0 → Type 0 → Type 0
Action S E A = S → Result E A × S

-- `?` on a result, in a function that changes no state.
abbrev pub and_then : {E A B : Type 0} → Result E A → (A → Result E B) → Result E B
and_then (ok a) f = f a
and_then (err e) f = err e

-- `?` on a call that may change the state.
abbrev pub bind : {S E A B : Type 0} → Result E A × S → (A → S → Result E B × S) → Result E B × S
bind (ok a, s) f = f a s
bind (err e, s) f = (err e, s)

-- The code returns, and what it returns satisfies `P`.
abbrev pub Returns : {A : Type 0} → (A → Type 0) → Option A → Type 0
Returns P none = ⊥
Returns P (some x) = P x

pub Returns-imp :
    {A : Type 0} {P Q : A → Type 0}
    → ((x : A) → P x → Q x)
    → (o : Option A) → Returns P o
    → Returns Q o
Returns-imp h none r = r
Returns-imp h (some x) r = h x r

pub Returns-bind :
    {A B : Type 0} {P : A → Type 0} (Q : B → Type 0) (o : Option A) (f : A → Option B)
    → Returns P o
    → ((x : A) → P x → Returns Q (f x))
    → Returns Q (elim o [ none ↦ none | some x ↦ f x ])
Returns-bind Q none f h k = h
Returns-bind Q (some x) f h k = k x h

-- `P` of the result, if there is one.
abbrev pub Allows : {A : Type 0} → (A → Type 0) → Option A → Type 0
Allows P none = Unit
Allows P (some x) = P x

pub Returns-Allows : {A : Type 0} (P : A → Type 0) (o : Option A) → Returns P o → Allows P o
Returns-Allows P none r = tt
Returns-Allows P (some x) r = r

pub Allows-Returns :
    {A : Type 0} (P : A → Type 0) (o : Option A)
    → Allows P o
    → Returns (λ (x : A). Unit) o
    → Returns P o
Allows-Returns P none a r = r
Allows-Returns P (some x) a r = a

-- What every part of a call keeps of the state, the call keeps, whether it fails half-way or not.
pub bind-keeps :
    {S E A B : Type 0} (P : S → Type 0) (r : Result E A × S) (f : A → S → Result E B × S)
    → P r.1
    → ((a : A) (s : S) → P s → P (f a s).1)
    → P (bind r f).1
bind-keeps P (ok a, s) f h k = k a s h
bind-keeps P (err e, s) f h k = h

-- A call that succeeds has succeeded in its first part.
pub bind-ok :
    {S E A B : Type 0} (r : Result E A × S) (f : A → S → Result E B × S) (b : B)
    → (bind r f).0 ≡ ok b
    → (a : A) × ((r.0 ≡ ok a) × (bind r f ≡ f a r.1))
bind-ok (ok a, s) f b h = (a, (refl, refl))
bind-ok (err e, s) f b h = cc
