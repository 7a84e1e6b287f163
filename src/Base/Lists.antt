-- ===== src/Base/Lists.antt =====
-- C arrays and linked lists as lists, measured and indexed by native numbers; `memcpy` as `blit`.
use Prim.Native.Nat.{ℕ, zero, suc, ◌+◌, ◌-◌, ◌≤◌, ◌<◌, min}
use mathlib.Core.Path.{◌≡◌, refl, ap, ap₂}
use mathlib.Core.Logic.{◌⊎◌}
use mathlib.Core.List.{List, [], ◌∷◌, ◌++◌}
use mathlib.Core.Option.{Option, none, some}
use native.Mathlib.Omega.{arith}

module _ {ℓ} {A : Type ℓ} where
  abbrev pub length : List A → ℕ
  length [] = 0
  length (x ∷ xs) = suc (length xs)

  abbrev pub get_elem? : List A → ℕ → Option A
  get_elem? [] i = none
  get_elem? (x ∷ xs) zero = some x
  get_elem? (x ∷ xs) (suc i) = get_elem? xs i

  abbrev pub get_or : List A → ℕ → A → A
  get_or [] i d = d
  get_or (x ∷ xs) zero d = x
  get_or (x ∷ xs) (suc i) d = get_or xs i d

  -- A write out of bounds changes nothing.
  abbrev pub set : List A → ℕ → A → List A
  set [] i v = []
  set (x ∷ xs) zero v = v ∷ xs
  set (x ∷ xs) (suc i) v = x ∷ set xs i v

  abbrev pub take : ℕ → List A → List A
  take zero xs = []
  take (suc n) [] = []
  take (suc n) (x ∷ xs) = x ∷ take n xs

  abbrev pub drop : ℕ → List A → List A
  drop zero xs = xs
  drop (suc n) [] = []
  drop (suc n) (x ∷ xs) = drop n xs

  -- `memcpy(dst + off, src, length src)`; what would fall outside `dst` is dropped.
  pub blit : List A → ℕ → List A → List A
  blit [] off src = []
  blit (d ∷ ds) (suc off) src = d ∷ blit ds off src
  blit (d ∷ ds) zero [] = d ∷ ds
  blit (d ∷ ds) zero (x ∷ src) = x ∷ blit ds zero src

  pub replicate : ℕ → A → List A
  replicate zero a = []
  replicate (suc n) a = a ∷ replicate n a

  pub replicate-suc : (n : ℕ) (a : A) → replicate (suc n) a ≡ a ∷ replicate n a
  unfolding replicate
  replicate-suc n a = refl

  pub length-replicate : (n : ℕ) (a : A) → length (replicate n a) ≡ n
  unfolding replicate
  length-replicate zero a = refl
  length-replicate (suc n) a = ap suc (length-replicate n a)

  pub length-append : (xs ys : List A) → length (xs ++ ys) ≡ length xs + length ys
  length-append [] ys = omega arith
  length-append (x ∷ xs) ys = omega (arith, length-append xs ys)

  pub length-take : (n : ℕ) (xs : List A) → length (take n xs) ≡ min n (length xs)
  length-take zero xs = omega arith
  length-take (suc n) [] = omega arith
  length-take (suc n) (x ∷ xs) = omega (arith, length-take n xs)

  pub length-drop : (n : ℕ) (xs : List A) → length (drop n xs) ≡ length xs - n
  length-drop zero xs = omega arith
  length-drop (suc n) [] = omega arith
  length-drop (suc n) (x ∷ xs) = omega (arith, length-drop n xs)

  pub length-set : (xs : List A) (i : ℕ) (v : A) → length (set xs i v) ≡ length xs
  length-set [] i v = refl
  length-set (x ∷ xs) zero v = refl
  length-set (x ∷ xs) (suc i) v = ap suc (length-set xs i v)

  pub length-blit : (xs : List A) (off : ℕ) (src : List A) → length (blit xs off src) ≡ length xs
  unfolding blit
  length-blit [] off src = refl
  length-blit (d ∷ ds) (suc off) src = ap suc (length-blit ds off src)
  length-blit (d ∷ ds) zero [] = refl
  length-blit (d ∷ ds) zero (x ∷ src) = ap suc (length-blit ds zero src)

  -- Inside the copied range `blit` shows the source.
  pub get_or-blit_in :
      (xs : List A) (off : ℕ) (src : List A) (i : ℕ) (d : A)
      → off ≤ i
      → i < off + length src
      → i < length xs
      → get_or (blit xs off src) i d ≡ get_or src (i - off) d
  unfolding blit
  get_or-blit_in [] off src i d lo hi fits = absurd (omega arith)
  get_or-blit_in (y ∷ ys) (suc off) src zero d lo hi fits = absurd (omega arith)
  get_or-blit_in (y ∷ ys) (suc off) src (suc i) d lo hi fits =
      let e : suc i - suc off ≡ i - off = omega arith in
      rw (get_or-blit_in ys off src i d (omega arith) (omega arith) (omega arith), e)
  get_or-blit_in (y ∷ ys) zero [] i d lo hi fits = absurd (omega arith)
  get_or-blit_in (y ∷ ys) zero (x ∷ src) zero d lo hi fits = refl
  get_or-blit_in (y ∷ ys) zero (x ∷ src) (suc i) d lo hi fits =
      let e : i - 0 ≡ i = omega arith in
      let n : suc i - 0 ≡ suc i = omega arith in
      let ih = get_or-blit_in ys zero src i d (omega arith) (omega arith) (omega arith) in
      rw n (rw e at ih)

  -- Outside it shows the old bytes.
  pub get_or-blit_out :
      (xs : List A) (off : ℕ) (src : List A) (i : ℕ) (d : A)
      → (i < off) ⊎ (off + length src ≤ i)
      → get_or (blit xs off src) i d ≡ get_or xs i d
  unfolding blit
  get_or-blit_out [] off src i d out = refl
  get_or-blit_out (y ∷ ys) (suc off) src zero d out = refl
  get_or-blit_out (y ∷ ys) (suc off) src (suc i) d out =
      get_or-blit_out ys off src i d (omega arith)
  get_or-blit_out (y ∷ ys) zero [] i d out = refl
  get_or-blit_out (y ∷ ys) zero (x ∷ src) zero d out = absurd (omega arith)
  get_or-blit_out (y ∷ ys) zero (x ∷ src) (suc i) d out =
      get_or-blit_out ys zero src i d (omega arith)

  pub get_or-take :
      (n : ℕ) (xs : List A) (i : ℕ) (d : A) → i < n → get_or (take n xs) i d ≡ get_or xs i d
  get_or-take zero xs i d h = absurd (omega arith)
  get_or-take (suc n) [] i d h = refl
  get_or-take (suc n) (x ∷ xs) zero d h = refl
  get_or-take (suc n) (x ∷ xs) (suc i) d h = get_or-take n xs i d (omega arith)

  pub get_or-drop :
      (n : ℕ) (xs : List A) (i : ℕ) (d : A) → get_or (drop n xs) i d ≡ get_or xs (n + i) d
  get_or-drop zero xs i d = ap (λ k. get_or xs k d) (omega arith)
  get_or-drop (suc n) [] i d = refl
  get_or-drop (suc n) (x ∷ xs) i d =
      let e : suc n + i ≡ suc (n + i) = omega arith in rw (e, get_or-drop n xs i d)

  pub get_or-append_left :
      (xs ys : List A) (i : ℕ) (d : A) → i < length xs → get_or (xs ++ ys) i d ≡ get_or xs i d
  get_or-append_left [] ys i d h = absurd (omega arith)
  get_or-append_left (x ∷ xs) ys zero d h = refl
  get_or-append_left (x ∷ xs) ys (suc i) d h = get_or-append_left xs ys i d (omega arith)

  pub get_or-append_right :
      (xs ys : List A) (i : ℕ) (d : A)
      → length xs ≤ i
      → get_or (xs ++ ys) i d ≡ get_or ys (i - length xs) d
  get_or-append_right [] ys i d h = ap (λ k. get_or ys k d) (omega arith)
  get_or-append_right (x ∷ xs) ys zero d h = absurd (omega arith)
  get_or-append_right (x ∷ xs) ys (suc i) d h =
      let e : suc i - suc (length xs) ≡ i - length xs = omega arith in
      rw (get_or-append_right xs ys i d (omega arith), e)

  -- Two arrays of one length with the same elements are equal.
  pub get_or_ext :
      (d : A) (xs ys : List A)
      → length xs ≡ length ys
      → ((i : ℕ) → i < length xs → get_or xs i d ≡ get_or ys i d)
      → xs ≡ ys
  get_or_ext d [] [] e h = refl
  get_or_ext d [] (y ∷ ys) e h = absurd (omega arith)
  get_or_ext d (x ∷ xs) [] e h = absurd (omega arith)
  get_or_ext d (x ∷ xs) (y ∷ ys) e h =
      ap₂ ◌∷◌ (h 0 (omega arith))
        (get_or_ext d xs ys (omega arith) (λ i p. h (suc i) (omega arith)))

  pub take-length : (xs : List A) → take (length xs) xs ≡ xs
  take-length [] = refl
  take-length (x ∷ xs) = ap (λ t. x ∷ t) (take-length xs)

  -- A predicate of every element.
  abbrev pub All {κ} : (A → Type κ) → List A → Type κ
  All P [] = Unit
  All P (x ∷ xs) = P x × All P xs

  -- A list in front of another, taken and dropped by its length.
  pub take_front : (n : ℕ) (xs ys : List A) → length xs ≡ n → take n (xs ++ ys) ≡ xs
  take_front zero [] ys e = refl
  take_front zero (x ∷ xs) ys e = absurd (omega arith)
  take_front (suc n) [] ys e = absurd (omega arith)
  take_front (suc n) (x ∷ xs) ys e = ap (λ (l : List A). x ∷ l) (take_front n xs ys (omega arith))

  pub drop_front : (n : ℕ) (xs ys : List A) → length xs ≡ n → drop n (xs ++ ys) ≡ ys
  drop_front zero [] ys e = refl
  drop_front zero (x ∷ xs) ys e = absurd (omega arith)
  drop_front (suc n) [] ys e = absurd (omega arith)
  drop_front (suc n) (x ∷ xs) ys e = drop_front n xs ys (omega arith)

pub All-append {ℓ κ} :
    {A : Type ℓ} (P : A → Type κ) (xs ys : List A) → All P xs → All P ys → All P (xs ++ ys)
All-append P [] ys p q = q
All-append P (x ∷ xs) ys p q = (p.0, All-append P xs ys p.1 q)

pub replicate_more {ℓ} : {A : Type ℓ} (n : ℕ) (x : A) → replicate (suc n) x ≡ x ∷ replicate n x
unfolding replicate
replicate_more n x = refl

pub replicate_none {ℓ} : {A : Type ℓ} (x : A) → replicate 0 x ≡ []
unfolding replicate
replicate_none x = refl
