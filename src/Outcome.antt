-- ===== src/Outcome.antt =====
-- What a call of the programs comes to, and how calls follow one another.
use project.Base.{◌≡◌, Option, none, some, subst}

-- `exited` is a call of `exit`, `fault` an access outside an array, `hangs` a loop or a wait that
-- never ends.
pub data Outcome (A : Type 0) : Type 0 where
  ok : A → Outcome A
  exited fault hangs : Outcome A

infixl 5 ◌>>=◌
abbrev pub ◌>>=◌ : {A B : Type 0} → Outcome A → (A → Outcome B) → Outcome B
ok a >>= f = f a
exited >>= f = exited
fault >>= f = fault
hangs >>= f = hangs

abbrev pub of_option : {A : Type 0} → Option A → Outcome A
of_option none = fault
of_option (some a) = ok a

-- What holds of the result of a call that returns.
abbrev pub Leaves : {A : Type 0} → (A → Type 0) → Outcome A → Type 0
Leaves P (ok a) = P a
Leaves P exited = Unit
Leaves P fault = Unit
Leaves P hangs = Unit

pub bind-Leaves :
    {A B : Type 0} (P : A → Type 0) (Q : B → Type 0) (m : Outcome A) (f : A → Outcome B)
    → Leaves P m
    → ((a : A) → P a → Leaves Q (f a))
    → Leaves Q (m >>= f)
bind-Leaves P Q (ok a) f p q = q a p
bind-Leaves P Q exited f p q = tt
bind-Leaves P Q fault f p q = tt
bind-Leaves P Q hangs f p q = tt

pub of_option-Leaves : {A : Type 0} (o : Option A) → Leaves (λ (a : A). Unit) (of_option o)
of_option-Leaves none = tt
of_option-Leaves (some a) = tt

pub Leaves-ok : {A : Type 0} (P : A → Type 0) (m : Outcome A) (a : A) → m ≡ ok a → Leaves P m → P a
Leaves-ok P m a e p = subst (Leaves P) e p

pub Leaves-any : {A : Type 0} (m : Outcome A) → Leaves (λ (a : A). Unit) m
Leaves-any (ok a) = tt
Leaves-any exited = tt
Leaves-any fault = tt
Leaves-any hangs = tt
