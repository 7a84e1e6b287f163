-- ===== src/SBuffer/Results.antt =====
-- What the runs of sbuffer.c give that return.
use project.Base.{
  ◌≡◌, ◌∙◌, ◌⊎◌, inl, inr, refl, subst, Bool, true, false, ℕ, Option, none, some, Bool-cases,
}
use project.SBuffer.{SBuffer, Cursor, try_node, Run, returns, endless, faults, unfinished, ◌>>=◌}

-- A run whose result, if it has one, satisfies a predicate.
abbrev pub Gives : {A : Type 0} → (A → Type 0) → Run A → Type 0
Gives P (returns a) = P a
Gives P endless = Unit {0}
Gives P faults = Unit {0}
Gives P unfinished = Unit {0}

pub bind-Gives :
    {A B : Type 0} (P : A → Type 0) (Q : B → Type 0) (m : Run A) (f : A → Run B)
    → Gives P m
    → ((a : A) → m ≡ returns a → P a → Gives Q (f a))
    → Gives Q (m >>= f)
bind-Gives P Q (returns a) f p go = go a refl p
bind-Gives P Q endless f p go = tt
bind-Gives P Q faults f p go = tt
bind-Gives P Q unfinished f p go = tt

pub Gives-returns :
    {A : Type 0} (P : A → Type 0) (m : Run A) (a : A) → Gives P m → m ≡ returns a → P a
Gives-returns P (returns b) a p e = let same : b ≡ a = cc in subst P same p
Gives-returns P endless a p e = cc
Gives-returns P faults a p e = cc
Gives-returns P unfinished a p e = cc

pub Gives-all :
    {A : Type 0} (P : A → Type 0) (m : Run A) → ((a : A) → m ≡ returns a → P a) → Gives P m
Gives-all P (returns a) h = h a refl
Gives-all P endless h = tt
Gives-all P faults h = tt
Gives-all P unfinished h = tt

-- A run of two parts that returns.
pub bind-returns :
    {A B : Type 0} (m : Run A) (f : A → Run B) (b : B)
    → (m >>= f) ≡ returns b
    → (a : A) × (m ≡ returns a) × (f a ≡ returns b)
bind-returns (returns a) f b e = (a, refl, e)
bind-returns endless f b e = cc
bind-returns faults f b e = cc
bind-returns unfinished f b e = cc

pub try_node-Gives :
    (P : ℕ × SBuffer → Type 0) (duplicate far filled : Bool) (fills : Option Cursor) (b : SBuffer)
    (on : Run (ℕ × SBuffer)) (put : Cursor → Run (ℕ × SBuffer))
    → P (1, b)
    → P (0, b)
    → Gives P on
    → ((k : Cursor) → fills ≡ some k → Gives P (put k))
    → Gives P (try_node duplicate far filled fills b on put)
unfolding try_node
try_node-Gives P true far filled fills b on put p q o f = p
try_node-Gives P false true filled fills b on put p q o f = q
try_node-Gives P false false true fills b on put p q o f = o
try_node-Gives P false false false none b on put p q o f = o
try_node-Gives P false false false (some k) b on put p q o f = f k refl

-- The ways through the tests of one round.
module _ (duplicate far filled : Bool) (fills : Option Cursor) (b : SBuffer)
    (on : Run (ℕ × SBuffer)) (put : Cursor → Run (ℕ × SBuffer)) where
  pub try_node_on :
      duplicate ≡ false
      → far ≡ false
      → (filled ≡ true) ⊎ (fills ≡ none)
      → try_node duplicate far filled fills b on put ≡ on
  unfolding try_node
  try_node_on d f (inl full) = rw (d, f, full) refl
  try_node_on d f (inr untouched) =
      rw (d, f, untouched)
        (elim (Bool-cases filled) [ inl full ↦ rw full refl | inr hole ↦ rw hole refl ])

  pub try_node_put :
      (k : Cursor)
      → duplicate ≡ false
      → far ≡ false
      → filled ≡ false
      → fills ≡ some k
      → try_node duplicate far filled fills b on put ≡ put k
  unfolding try_node
  try_node_put k d f g h = rw (d, f, g, h) refl

  -- Where the rest of the nodes has no place, and this one has none, out of range or not.
  pub try_node-none :
      duplicate ≡ false
      → fills ≡ none
      → on ≡ returns (0, b)
      → try_node duplicate far filled fills b on put ≡ returns (0, b)
  try_node-none d f e = elim (Bool-cases far) [
    | inl out ↦ unfold try_node in rw (d, out) refl
    | inr near ↦ try_node_on d near (inr f) ∙ e
  ]
