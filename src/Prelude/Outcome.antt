-- ===== src/Prelude/Outcome.antt =====
-- Fallible code: `Result E A` for `anyhow::Result<A>`, where a constructor of `E` stands for each
-- message, and `bail_if c e` for `if c { bail!(e) }`.
use mathlib.Core.Path.{◌≡◌, refl, ap, ◌∙◌}
use mathlib.Core.Logic.{◌⊎◌, inl, inr}
use mathlib.Core.Bool.{Bool, true, false}
use mathlib.Core.Option.{Option, none, some}
use mathlib.Core.List.{List, [], ◌∷◌}
use quinte.Prelude.Lists.{All}

pub data Result (E A : Type 0) : Type 0 where
  ok : A → Result E A
  err : E → Result E A

infixl 5 ◌>>=◌ ◌>>◌
abbrev pub ◌>>=◌ : {E A B : Type 0} → Result E A → (A → Result E B) → Result E B
ok a >>= f = f a
err e >>= f = err e

abbrev pub ◌>>◌ : {E B : Type 0} → Result E (Unit {0}) → Result E B → Result E B
m >> k = m >>= λ _. k

abbrev pub bail_if : {E : Type 0} → Bool → E → Result E (Unit {0})
bail_if true e = err e
bail_if false e = ok tt

-- `option.context(e)?`
abbrev pub context : {E A : Type 0} → Option A → E → Result E A
context none e = err e
context (some a) e = ok a

abbrev pub is_ok : {E A : Type 0} → Result E A → Bool
is_ok (ok a) = true
is_ok (err e) = false

-- A loop over a slice whose body may fail.
abbrev pub try_each : {E A : Type 0} → (A → Result E (Unit {0})) → List A → Result E (Unit {0})
try_each f [] = ok tt
try_each f (x ∷ xs) = f x >> try_each f xs

pub Result-cases :
    {E A : Type 0} (r : Result E A) → ((a : A) × (r ≡ ok a)) ⊎ ((e : E) × (r ≡ err e))
Result-cases (ok a) = inl (a, refl)
Result-cases (err e) = inr (e, refl)

-- Two chains whose steps agree.
pub >>=-cong :
    {E A B : Type 0} {m n : Result E A} {f g : A → Result E B}
    → m ≡ n
    → ((a : A) → f a ≡ g a)
    → (m >>= f) ≡ (n >>= g)
>>=-cong {E = E} {A = A} {m = m} {n = n} {f = f} {g = g} same step =
    ap (λ r. r >>= f) same ∙ pointwise n
  where
    pointwise : (r : Result E A) → (r >>= f) ≡ (r >>= g)
    pointwise (ok a) = step a
    pointwise (err e) = refl

pub ok-injective : {E A : Type 0} {a b : A} → (let x : Result E A = ok a in x) ≡ ok b → a ≡ b
ok-injective h = cc

-- Inversion of a successful chain.
pub bail_if-ok :
    {E B : Type 0} (b : Bool) (e : E) (k : Result E B) {x : B}
    → (bail_if b e >> k) ≡ ok x
    → (b ≡ false) × (k ≡ ok x)
bail_if-ok true e k h = cc
bail_if-ok false e k h = (refl, h)

pub >>-ok :
    {E B : Type 0} (m : Result E (Unit {0})) (k : Result E B) {x : B}
    → (m >> k) ≡ ok x
    → (m ≡ ok tt) × (k ≡ ok x)
>>-ok (ok tt) k h = (refl, h)
>>-ok (err e) k h = cc

pub >>=-ok :
    {E A B : Type 0} (m : Result E A) (f : A → Result E B) {x : B}
    → (m >>= f) ≡ ok x
    → (a : A) × (m ≡ ok a) × (f a ≡ ok x)
>>=-ok (ok a) f h = (a, refl, h)
>>=-ok (err e) f h = cc

pub context-ok : {E A : Type 0} (o : Option A) (e : E) {a : A} → context o e ≡ ok a → o ≡ some a
context-ok none e h = cc
context-ok (some b) e h = cc

-- What a loop that succeeds has checked of every member.
pub try_each-All :
    {E A : Type 0} (f : A → Result E (Unit {0})) (P : A → Type 0)
    → ((a : A) → f a ≡ ok tt → P a)
    → (l : List A) → try_each f l ≡ ok tt
    → All P l
try_each-All f P one [] h = tt
try_each-All f P one (a ∷ l) h =
    let parts = >>-ok (f a) (try_each f l) h in (one a parts.0, try_each-All f P one l parts.1)

pub bail_each-All :
    {E A : Type 0} (bad : A → Bool) (e : E) (xs : List A)
    → try_each (λ x. bail_if (bad x) e) xs ≡ ok tt
    → All (λ x. bad x ≡ false) xs
bail_each-All bad e [] h = tt
bail_each-All bad e (x ∷ xs) h =
    let (now, later) = bail_if-ok (bad x) e (try_each (λ x. bail_if (bad x) e) xs) h in
    (now, bail_each-All bad e xs later)
