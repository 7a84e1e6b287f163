-- ===== src/Link/Pieces.antt =====
-- The packets of a window as numbers and data, and as datagrams.
use project.Base.{
  ℕ, Bool, ◌⊎◌, zero, suc, ◌+◌, ◌-◌, ◌*◌, ◌≤◌, ◌<◌, ◌≡◌, ◌≢◌, inl, inr, refl, sym, ap, ap₂, ◌∙◌,
  subst, true, false, some, List, [], ◌∷◌, ◌++◌, map, arith, length, get_or, take, take-length, All,
  ◌==◌, ==_iff, ltb, Bool-cases,
}
use project.CBuffer.{PackNode, packet_bytes}
use project.CBuffer.Ring.{ring, length-ring, ring-add, packet_bytes-ring}
use project.CBuffer.Chain.{Chain, total}
use project.CBuffer.Add.{ring_start}
use project.Sender.{Outcome, ok, exited, fault, hangs, ◌>>=◌, Datagram, troll, timer, host, packet}
use project.Sender.Wire.{wire}
use project.SBuffer.{SBuffer}
use project.SBuffer.Deliver.{first_of}
use project.SBuffer.Read.{stream, payload}
use project.Tcpds.{Stale, Daemon, remote_is_set}
use project.Tcpds.Store.{sbuffer}
use project.Tcpds.Reassembly.{IsFull, receive_packets}
use project.Link.{to_troll, pick, Occurs, IsOrder, receive_datagrams, IsWhole}

abbrev pub as_datagram : List ℕ → ℕ × List ℕ → List ℕ
as_datagram remote p = packet remote p.0 p.1 1000

bind_ext :
    {A B : Type 0} (o : Outcome A) (f g : A → Outcome B)
    → ((a : A) → f a ≡ g a)
    → (o >>= f) ≡ (o >>= g)
bind_ext (ok a) f g h = h a
bind_ext exited f g h = refl
bind_ext fault f g h = refl
bind_ext hangs f g h = refl

pub receive_datagrams-map :
    (refused : ℕ → Bool) (stale : Stale) (remote : List ℕ) (ps : List (ℕ × List ℕ))
    (d : Daemon SBuffer)
    → receive_datagrams refused stale (map (as_datagram remote) ps) d
      ≡ receive_packets refused stale remote ps d
unfolding receive_datagrams receive_packets
receive_datagrams-map refused stale remote [] d = refl
receive_datagrams-map refused stale remote ((q, bytes) ∷ ps) d =
    bind_ext (remote_is_set sbuffer refused stale (packet remote q bytes 1000) d) _ _
      (λ d'. receive_datagrams-map refused stale remote ps d')

-- The number and the data of each packet.
abbrev pub pieces : List ℕ → List PackNode → List (ℕ × List ℕ)
pieces buf [] = []
pieces buf (n ∷ r) = (n.seqnum, packet_bytes buf n) ∷ pieces buf r

pub to_troll-append : (xs ys : List Datagram) → to_troll (xs ++ ys) ≡ to_troll xs ++ to_troll ys
unfolding to_troll
to_troll-append [] ys = refl
to_troll-append ((troll, m) ∷ xs) ys = ap (λ (l : List (List ℕ)). m ∷ l) (to_troll-append xs ys)
to_troll-append ((timer, m) ∷ xs) ys = to_troll-append xs ys
to_troll-append ((host, m) ∷ xs) ys = to_troll-append xs ys

pub to_troll-wire :
    (remote buf : List ℕ) (ns : List PackNode)
    → All IsWhole ns
    → to_troll (wire remote buf ns) ≡ map (as_datagram remote) (pieces buf ns)
unfolding to_troll
to_troll-wire remote buf [] all = refl
to_troll-wire remote buf (n ∷ ns) all =
    let new : ltb 0 n.ack ≡ false = ground arith in
    rw new (
      ap₂ (λ (size : ℕ) (l : List (List ℕ)). packet remote n.seqnum (packet_bytes buf n) size ∷ l)
        all.0.1 (to_troll-wire remote buf ns all.1))

module _ {A : Type 0} (d : A) where
  pub All-pick :
      (P : A → Type 0) (order : List ℕ) (xs : List A)
      → All P xs
      → All (λ i. i < length xs) order
      → All P (pick d order xs)
  All-pick P [] xs all within = tt
  All-pick P (i ∷ order) xs all within =
      (All-get_or P xs i all within.0, All-pick P order xs all within.1)
    where
      All-get_or :
          (P : A → Type 0) (ys : List A) (j : ℕ) → All P ys → j < length ys → P (get_or ys j d)
      All-get_or P [] j all h = absurd (omega arith)
      All-get_or P (y ∷ ys) zero all h = all.0
      All-get_or P (y ∷ ys) (suc j) all h = All-get_or P ys j all.1 (omega arith)

get_or-map :
    {A B : Type 0} (f : A → B) (a : A) (b : B) (xs : List A) (i : ℕ)
    → i < length xs
    → get_or (map f xs) i b ≡ f (get_or xs i a)
get_or-map f a b [] i h = absurd (omega arith)
get_or-map f a b (x ∷ xs) zero h = refl
get_or-map f a b (x ∷ xs) (suc i) h = get_or-map f a b xs i (omega arith)

pub pick-map :
    {A B : Type 0} (f : A → B) (a : A) (b : B) (order : List ℕ) (xs : List A)
    → All (λ i. i < length xs) order
    → pick b order (map f xs) ≡ map f (pick a order xs)
pick-map f a b [] xs within = refl
pick-map f a b (i ∷ order) xs within =
    ap₂ ◌∷◌ (get_or-map f a b xs i within.0) (pick-map f a b order xs within.1)

pub length-pieces : (buf : List ℕ) (ns : List PackNode) → length (pieces buf ns) ≡ length ns
length-pieces buf [] = refl
length-pieces buf (n ∷ ns) = ap suc (length-pieces buf ns)

-- The piece at place `i` of a chain of whole packets.
pub get_or-pieces :
    (buf : List ℕ) (s q i : ℕ) (ns : List PackNode)
    → length buf ≡ 64000
    → Chain s q ns
    → All IsWhole ns
    → i < length ns
    → get_or (pieces buf ns) i (0, []) ≡ (q + i, ring buf (s + i * 1000) 1000)
get_or-pieces buf s q i [] e c all h = absurd (omega arith)
get_or-pieces buf s q zero (n ∷ ns) e c all h =
    ap₂ (λ (x : ℕ) (y : List ℕ). (x, y)) (omega arith)
      (packet_bytes-ring buf n e (omega arith) (omega arith)
        ∙ ap (ring buf n.dat) all.0.1
        ∙ ring_start buf n.dat (s + 0 * 1000) 1000 (omega arith))
get_or-pieces buf s q (suc i) (n ∷ ns) e c all h =
    get_or-pieces buf (s + n.size) (q + 1) i ns e c.4 all.1 (omega arith)
    ∙ ap₂ (λ (x y : ℕ). (x, ring buf y 1000)) (omega arith) (omega (arith, all.0.1))

pub total-IsWhole : (ns : List PackNode) → All IsWhole ns → total ns ≡ length ns * 1000
total-IsWhole [] all = refl
total-IsWhole (n ∷ ns) all = omega (arith, total-IsWhole ns all.1, all.0.1)

-- The numbers and sizes of the pieces of a window that starts at 1.
pub pieces-IsFull :
    (buf : List ℕ) (s q : ℕ) (ns : List PackNode)
    → length buf ≡ 64000
    → Chain s q ns
    → All IsWhole ns
    → 1 ≤ q
    → q + length ns ≤ 65
    → All IsFull (pieces buf ns)
pieces-IsFull buf s q [] e c all lo hi = tt
pieces-IsFull buf s q (n ∷ ns) e c all lo hi = (
  (omega arith, omega arith, len),
  pieces-IsFull buf (s + n.size) (q + 1) ns e c.4 all.1 (omega arith) (omega arith),
)
  where
    len : length (packet_bytes buf n) ≡ 1000
    len =
        ap length (packet_bytes-ring buf n e (omega arith) (omega arith))
        ∙ length-ring buf n.dat n.size
        ∙ all.0.1

take_ring_all : (buf : List ℕ) (s : ℕ) → take 1000 (ring buf s 1000) ≡ ring buf s 1000
take_ring_all buf s =
    subst (λ (n : ℕ). take n (ring buf s 1000) ≡ ring buf s 1000) (length-ring buf s 1000)
      (take-length (ring buf s 1000))

dec_eq : (a b : ℕ) → (a ≡ b) ⊎ (a ≢ b)
dec_eq a b = elim (Bool-cases (a == b)) [
  | inl e ↦ inl ((==_iff a b).0 e)
  | inr e ↦ inr (λ same. cc ((==_iff a b).1 same))
]

not_eq : (a b : ℕ) → a ≢ b → (a == b) ≡ false
not_eq a b h = ground arith

-- In a chain of whole packets that starts at 1 the first of the picked pieces with number `k` is the
-- packet with that number, if its place occurs.
pub first_of-pick :
    (buf : List ℕ) (s k : ℕ) (ns : List PackNode) (order : List ℕ)
    → length buf ≡ 64000
    → Chain s 1 ns
    → All IsWhole ns
    → All (λ i. i < length ns) order
    → 1 ≤ k
    → Occurs (k - 1) order
    → first_of (pick (0, []) order (pieces buf ns)) k ≡ some (ring buf (s + (k - 1) * 1000) 1000)
unfolding first_of
first_of-pick buf s k ns [] e c all within lo occurs = absurd occurs
first_of-pick buf s k ns (i ∷ order) e c all within lo occurs =
    let piece = get_or-pieces buf s 1 i ns e c all within.0 in
    let number = ap (λ (p : ℕ × List ℕ). p.0) piece in
    let bytes = ap (λ (p : ℕ × List ℕ). take 1000 p.1) piece ∙ take_ring_all buf (s + i * 1000) in
    elim (dec_eq k (1 + i)) [
      | inl same ↦
          let here : (k == (get_or (pieces buf ns) i (0, [])).0) ≡ true =
            (==_iff _ _).1 (same ∙ sym number) in
          rw here (
            ap (λ (x : List ℕ). some x)
              (bytes ∙ ap (λ (j : ℕ). ring buf (s + j * 1000) 1000) (omega arith)))
      | inr other ↦
          let here : (k == (get_or (pieces buf ns) i (0, [])).0) ≡ false =
            not_eq _ _ (λ same. other (same ∙ number)) in
          rw here (
            first_of-pick buf s k ns order e c all within.1 lo
              (elim occurs [ inl at ↦ absurd (other (omega arith)) | inr later ↦ later ]))
    ]

-- The stream that they make.
pub stream-pick :
    (buf : List ℕ) (s m : ℕ) (ns : List PackNode) (order : List ℕ)
    → length buf ≡ 64000
    → Chain s 1 ns
    → All IsWhole ns
    → IsOrder (length ns) order
    → m ≤ length ns
    → stream (pick (0, []) order (pieces buf ns)) m ≡ ring buf s (m * 1000)
unfolding stream
stream-pick buf s zero ns order e c all o h = refl
stream-pick buf s (suc m) ns order e c all o h =
    ap₂ ◌++◌ (stream-pick buf s m ns order e c all o (omega arith)) (
      ap payload (
        first_of-pick buf s (suc m) ns order e c all o.within (omega arith)
          (subst (λ (i : ℕ). Occurs i order) (omega arith) (o.complete m (omega arith))))
      ∙ ap (λ (j : ℕ). ring buf j 1000) (omega arith))
    ∙ sym (ring-add buf s (m * 1000) 1000)
    ∙ ap (ring buf s) (omega arith)
