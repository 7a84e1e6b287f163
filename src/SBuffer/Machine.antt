-- ===== src/SBuffer/Machine.antt =====
-- `mergeList` of sbuffer.c test by test, on the links of the ring, and that `merge_list` says what it
-- comes to.
pub mod Simulation
use project.Base.{
  ℕ, zero, suc, ◌+◌, ◌≤◌, ◌<◌, ◌≡◌, ◌≢◌, ◌⊎◌, inl, inr, refl, sym, ap, ◌∙◌, subst, Bool, true,
  false, List, [], ◌∷◌, ◌++◌, arith, length, Bool-cases, if◌then◌else◌, Option, some, none,
}
use project.SBuffer.{
  CirNode, Run, returns, endless, faults, unfinished, ◌>>=◌, Cursor, nodes, joins, blends, join,
  blend, join_all, blend_all, first_or, closes, advance, absorb, merge_from, merge_list, triangle,
}
use project.SBuffer.Merge.{
  settled, absorb-returns, absorb-cases, rest-cases, merge_from_stop, merge_from_step,
}

-- The test that comes next: of the outer loop, of the first inner loop, of the second.
pub data Phase : Type 0 where
  outer joining blending : Phase

-- The ring from `head` on, or, once another node has taken `head` in, from the node behind it.
pub record Loop : Type 0 where
  pub phase : Phase
  pub front : List CirNode
  pub current : CirNode
  pub behind : List CirNode
  pub head_left : Bool

-- `current->next`
pub next_node : List CirNode → CirNode → List CirNode → CirNode
next_node front c [] = first_or front c
next_node front c (n ∷ r) = n

-- The node `c'` that `current` becomes takes the next node's place.
pub take_in : CirNode → List CirNode → List CirNode → Bool → Phase → Loop
take_in c' front (n ∷ r) left p = record {
  phase = p;
  front = front;
  current = c';
  behind = r;
  head_left = left;
}
take_in c' (h ∷ t) [] left p = record {
  phase = p;
  front = t;
  current = c';
  behind = [];
  head_left = true;
}
take_in c' [] [] left p = record {
  phase = p;
  front = [];
  current = c';
  behind = [];
  head_left = left;
}

-- The test of the outer loop: whether the next node is not `head`.
pub goes_on : List CirNode → Bool → Bool
goes_on [] left = left
goes_on (n ∷ r) left = true

-- One test and what follows it; `none` where the outer loop ends.
pub step : ℕ → Phase → List CirNode → CirNode → List CirNode → Bool → Option Loop
step dstart outer front c behind left =
    if goes_on behind left
    then some
        (record { phase = joining; front = front; current = c; behind = behind; head_left = left })
    else none
step dstart joining front c behind left =
    let n = next_node front c behind in
    if joins c n
    then some (take_in (join c n) front behind left joining)
    else some
        (record { phase = blending; front = front; current = c; behind = behind; head_left = left })
step dstart blending front c behind left =
    let n = next_node front c behind in
    let k = advance front c behind in
    if blends dstart c n
    then some (take_in (blend c n) front behind left blending)
    else some (record {
      phase = outer;
      front = k.front;
      current = k.current;
      behind = k.behind;
      head_left = left;
    })

abbrev pub step_of : ℕ → Loop → Option Loop
step_of dstart l = step dstart l.phase l.front l.current l.behind l.head_left

pub data Steps (dstart : ℕ) : Loop → Loop → Type 0 where
  here : {l : Loop} → Steps dstart l l
  next : {l m n : Loop} → step_of dstart l ≡ some m → Steps dstart m n → Steps dstart l n

-- After so many tests; `none` once the call has returned.
pub run : ℕ → ℕ → Loop → Option Loop
run dstart zero l = some l
run dstart (suc n) l = elim (step_of dstart l) [ none ↦ none | some m ↦ run dstart n m ]

-- The call never returns.
abbrev pub Never : ℕ → Loop → Type 0
Never dstart l = (n : ℕ) → run dstart n l ≢ none

abbrev pub at : Phase → List CirNode → CirNode → List CirNode → Loop
at p front c behind = record {
  phase = p;
  front = front;
  current = c;
  behind = behind;
  head_left = false;
}

abbrev pub start : Cursor → Loop
start k = at outer k.front k.current k.behind

run_step :
    (dstart n : ℕ) (l m : Loop) → step_of dstart l ≡ some m → run dstart (suc n) l ≡ run dstart n m
unfolding run
run_step dstart n l m e = rw (e, run) refl

pub Never-step :
    (dstart : ℕ) (l m : Loop) → step_of dstart l ≡ some m → Never dstart m → Never dstart l
Never-step dstart l m e never zero h = unfold run in cc
Never-step dstart l m e never (suc n) h = never n (sym (run_step dstart n l m e) ∙ h)

pub Never-Steps : (dstart : ℕ) {l m : Loop} → Steps dstart l m → Never dstart m → Never dstart l
Never-Steps dstart here never = never
Never-Steps dstart (next {l} {m} e s) never = Never-step dstart l m e (Never-Steps dstart s never)

pub Steps-append :
    (dstart : ℕ) {l m n : Loop} → Steps dstart l m → Steps dstart m n → Steps dstart l n
Steps-append dstart here t = t
Steps-append dstart (next e s) t = next e (Steps-append dstart s t)

-- A property of loops that no test leaves.
Never-within :
    (dstart : ℕ) (P : Loop → Type 0)
    → ((l : Loop) → P l → (m : Loop) × (step_of dstart l ≡ some m) × P m)
    → (l : Loop) → P l
    → Never dstart l
Never-within dstart P keep l p zero h = unfold run in cc
Never-within dstart P keep l p (suc n) h =
    let (m, e, q) = keep l p in Never-within dstart P keep m q n (sym (run_step dstart n l m e) ∙ h)

take_in-left :
    (c : CirNode) (front behind : List CirNode) (p : Phase)
    → (take_in c front behind true p).head_left ≡ true
unfolding take_in
take_in-left c front (n ∷ r) p = refl
take_in-left c (h ∷ t) [] p = refl
take_in-left c [] [] p = refl

goes_on_left : (behind : List CirNode) → goes_on behind true ≡ true
unfolding goes_on
goes_on_left [] = refl
goes_on_left (n ∷ r) = refl

left_step :
    (dstart : ℕ) (p : Phase) (front : List CirNode) (c : CirNode) (behind : List CirNode)
    → (m : Loop) × (step dstart p front c behind true ≡ some m) × (m.head_left ≡ true)
unfolding step
left_step dstart outer front c behind = (
  record { phase = joining; front = front; current = c; behind = behind; head_left = true },
  rw (goes_on_left behind) refl,
  refl,
)
left_step dstart joining front c behind = elim (Bool-cases (joins c (next_node front c behind))) [
  | inl e ↦ (
    take_in (join c (next_node front c behind)) front behind true joining,
    rw e refl,
    take_in-left _ front behind joining,
  )
  | inr e ↦ (
    record { phase = blending; front = front; current = c; behind = behind; head_left = true },
    rw e refl,
    refl,
  )
]
left_step dstart blending front c behind =
    elim (Bool-cases (blends dstart c (next_node front c behind))) [
      | inl e ↦ (
        take_in (blend c (next_node front c behind)) front behind true blending,
        rw e refl,
        take_in-left _ front behind blending,
      )
      | inr e ↦
          let k = advance front c behind in
          (
            record {
              phase = outer;
              front = k.front;
              current = k.current;
              behind = k.behind;
              head_left = true;
            },
            rw e refl,
            refl,
          )
    ]

-- Once `head` is taken in, no test finds it.
pub Never-head_left : (dstart : ℕ) (l : Loop) → l.head_left ≡ true → Never dstart l
Never-head_left dstart l e =
    Never-within dstart (λ m. m.head_left ≡ true)
      (λ m f.
        let (m', s, t) = left_step dstart m.phase m.front m.current m.behind in
        (m', ap (step dstart m.phase m.front m.current m.behind) f ∙ s, t))
      l e

-- A node alone that takes itself in does so for ever.
module _ (dstart : ℕ) where
  abbrev JoinsItself : Loop → Type 0
  JoinsItself l = (c : CirNode) × (l ≡ at joining [] c []) × (joins c c ≡ true)

  abbrev BlendsItself : Loop → Type 0
  BlendsItself l = (c : CirNode) × (l ≡ at blending [] c []) × (blends dstart c c ≡ true)

  joins_again : (c : CirNode) → joins c c ≡ true → joins (join c c) (join c c) ≡ true
  unfolding joins join
  joins_again c e = e

  blends_again :
      (c : CirNode) → blends dstart c c ≡ true → blends dstart (blend c c) (blend c c) ≡ true
  unfolding blends blend
  blends_again c e = e

  pub Never-joins : (c : CirNode) → joins c c ≡ true → Never dstart (at joining [] c [])
  Never-joins c e = Never-within dstart JoinsItself keep (at joining [] c []) (c, refl, e)
    where
      keep : (l : Loop) → JoinsItself l → (m : Loop) × (step_of dstart l ≡ some m) × JoinsItself m
      keep l (b, f, g) = (
        at joining [] (join b b) [],
        ap (step_of dstart) f ∙ unfold step next_node take_in in rw g refl,
        (join b b, refl, joins_again b g),
      )

  pub Never-blends : (c : CirNode) → blends dstart c c ≡ true → Never dstart (at blending [] c [])
  Never-blends c e = Never-within dstart BlendsItself keep (at blending [] c []) (c, refl, e)
    where
      keep : (l : Loop) → BlendsItself l → (m : Loop) × (step_of dstart l ≡ some m) × BlendsItself m
      keep l (b, f, g) = (
        at blending [] (blend b b) [],
        ap (step_of dstart) f ∙ unfold step next_node take_in in rw g refl,
        (blend b b, refl, blends_again b g),
      )
