-- ===== src/SBuffer/Tiles.antt =====
-- sbuffer.c in its first window: the nodes stand for the numbers 1 to 64 in order, each for its
-- thousand bytes of the array.
use project.Base.{
  ℕ, ◌+◌, ◌-◌, ◌*◌, ◌≤◌, ◌<◌, ◌≡◌, inl, inr, refl, sym, ◌∙◌, subst, Bool, true, false, ◌&&◌, ◌||◌,
  List, [], ◌∷◌, ◌++◌, arith, leb, Bool-cases,
}
use project.Int.{pos, int_laws}
use project.SBuffer.{CirNode, joins, blends, join, join_all, blend_all, closes, same}

-- A node that starts at number `s`.
pub record IsTile (s : ℕ) (n : CirNode) : Type 0 where
  pub first_is : n.first_seq ≡ s
  pub some_numbers : s ≤ n.last_seq
  pub dat_is : n.dat ≡ pos ((s - 1) * 1000)
  pub size_is : n.size ≡ pos ((n.last_seq + 1 - s) * 1000)

-- The numbers from `s` to in front of `e`, in order.
abbrev pub Tiles : ℕ → List CirNode → ℕ → Type 0
Tiles s [] e = s ≡ e
Tiles s (n ∷ r) e = IsTile s n × Tiles (n.last_seq + 1) r e

pub Tiles-le : (s : ℕ) (r : List CirNode) (e : ℕ) → Tiles s r e → s ≤ e
Tiles-le s [] e t = omega arith
Tiles-le s (n ∷ r) e t =
    let later = Tiles-le (n.last_seq + 1) r e t.1 in let here = t.0.some_numbers in omega arith

pub Tiles-append :
    (s m e : ℕ) (xs ys : List CirNode) → Tiles s xs m → Tiles m ys e → Tiles s (xs ++ ys) e
Tiles-append s m e [] ys t u = subst (λ (k : ℕ). Tiles k ys e) (sym t) u
Tiles-append s m e (n ∷ xs) ys t u = (t.0, Tiles-append (n.last_seq + 1) m e xs ys t.1 u)

pub Tiles-split :
    (s e : ℕ) (xs ys : List CirNode) → Tiles s (xs ++ ys) e → (m : ℕ) × Tiles s xs m × Tiles m ys e
Tiles-split s e [] ys t = (s, refl, t)
Tiles-split s e (n ∷ xs) ys t =
    let (m, a, b) = Tiles-split (n.last_seq + 1) e xs ys t.1 in (m, (t.0, a), b)

-- Whether the packet `j` is there.
unfoldable pub filled_at : ℕ → List CirNode → Bool
filled_at j [] = false
filled_at j (n ∷ r) = (leb n.first_seq j && leb j n.last_seq && n.filled) || filled_at j r

pub filled_at-append :
    (j : ℕ) (xs ys : List CirNode) → filled_at j (xs ++ ys) ≡ (filled_at j xs || filled_at j ys)
unfolding filled_at
filled_at-append j [] ys = refl
filled_at-append j (n ∷ xs) ys = ground (arith, filled_at-append j xs ys)

pub filled_at_below : (j s e : ℕ) (r : List CirNode) → Tiles s r e → j < s → filled_at j r ≡ false
unfolding filled_at
filled_at_below j s e [] t h = refl
filled_at_below j s e (n ∷ r) t h = ground (arith, t.0, filled_at_below j (n.last_seq + 1) e r t.1)

pub filled_at_above : (j s e : ℕ) (r : List CirNode) → Tiles s r e → e ≤ j → filled_at j r ≡ false
unfolding filled_at
filled_at_above j s e [] t h = refl
filled_at_above j s e (n ∷ r) t h =
    ground (arith, Tiles-le (n.last_seq + 1) r e t.1, filled_at_above j (n.last_seq + 1) e r t.1 h)

-- Neighbours of one kind.
pub joins_tile : (c n : CirNode) → IsTile (c.last_seq + 1) n → joins c n ≡ same c.filled n.filled
unfolding joins
joins_tile c n t = ground (arith, t)

join-IsTile :
    (s : ℕ) (c n : CirNode) → 1 ≤ s → IsTile s c → IsTile (c.last_seq + 1) n → IsTile s (join c n)
unfolding join
join-IsTile s c n pos_s t u = record {
  first_is = t.first_is;
  some_numbers = omega (arith, t, u);
  dat_is = t.dat_is;
  size_is = rw (t.size_is, u.size_is) (omega int_laws);
}

-- Two lists that show the same packets.
abbrev pub SamePackets : List CirNode → List CirNode → Type 0
SamePackets xs ys = (j : ℕ) → filled_at j xs ≡ filled_at j ys

join-SamePackets :
    (s e : ℕ) (c n : CirNode) (r : List CirNode)
    → IsTile s c
    → IsTile (c.last_seq + 1) n
    → joins c n ≡ true
    → SamePackets (join c n ∷ r) (c ∷ (n ∷ r))
unfolding filled_at join joins
join-SamePackets s e c n r t u h j = ground (arith, t, u)

-- The next node is of the other kind, if there is one.
abbrev pub Meets : CirNode → List CirNode → Type 0
Meets c [] = Unit
Meets c (n ∷ r) = joins c n ≡ false

-- What the first inner loop makes of a node and those behind it.
pub record Joined (s e : ℕ) (c : CirNode) (r : List CirNode) (c' : CirNode) (r' : List CirNode)
    : Type 0 where
  pub tiles : Tiles s (c' ∷ r') e
  pub packets : SamePackets (c' ∷ r') (c ∷ r)
  pub meets : Meets c' r'
  pub same_first : c'.first_seq ≡ c.first_seq
  pub same_kind : c'.filled ≡ c.filled

pub join_all-Joined :
    (s e : ℕ) (c : CirNode) (r : List CirNode)
    → 1 ≤ s
    → Tiles s (c ∷ r) e
    → Joined s e c r (join_all c r).0 (join_all c r).1
unfolding join_all join
join_all-Joined s e c [] h t = record {
  tiles = t;
  packets = λ j. refl;
  meets = tt;
  same_first = refl;
  same_kind = refl;
}
join_all-Joined s e c (n ∷ r) h t = elim (Bool-cases (joins c n)) [
  | inl on ↦
      let joined : IsTile s (join c n) = join-IsTile s c n h t.0 t.1.0 in
      let ih = join_all-Joined s e (join c n) r h (joined, t.1.1) in
      rw on (record {
        tiles = ih.tiles;
        packets = λ j. ih.packets j ∙ join-SamePackets s e c n r t.0 t.1.0 on j;
        meets = ih.meets;
        same_first = ih.same_first;
        same_kind = ih.same_kind;
      })
  | inr stop ↦
      rw stop (record {
        tiles = t;
        packets = λ j. refl;
        meets = stop;
        same_first = refl;
        same_kind = refl;
      })
]

-- In the first window the second inner loop has nothing to do.
pub blend_all_none :
    (s e : ℕ) (c : CirNode) (r : List CirNode)
    → Tiles s (c ∷ r) e
    → Meets c r
    → blend_all 1 c r ≡ (c, r)
unfolding blend_all blends
blend_all_none s e c [] t m = refl
blend_all_none s e c (n ∷ r) t m =
    let not_blends : blends 1 c n ≡ false = ground (arith, joins_tile c n t.1.0, m) in rw not_blends

closes_last :
    (c h : CirNode)
    → h.first_seq ≡ 1
    → c.last_seq + 1 ≡ 65
    → (joins c h ≡ false) × (blends 1 c h ≡ false)
unfolding joins blends
closes_last c h e f = ground arith

-- Nor does a loop take in `head`.
pub closes_none :
    (front : List CirNode) (c : CirNode) (r : List CirNode)
    → Tiles 1 (front ++ (c ∷ r)) 65
    → (closes joins front c r ≡ false) × (closes (blends 1) front c r ≡ false)
unfolding closes
closes_none front c (n ∷ r) t = (refl, refl)
closes_none [] c [] t = closes_last c c t.0.first_is t.1
closes_none (h ∷ front) c [] t =
    let (m, a, b) = Tiles-split (h.last_seq + 1) 65 front (c ∷ []) t.1 in
    closes_last c h t.0.first_is b.1
