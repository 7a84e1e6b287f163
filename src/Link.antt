-- ===== src/Link.antt =====
-- From the window that cbuffer.c sends, through the network, to what tcpds.c gives ftps. The troll
-- may change the order of datagrams and repeat them.
pub mod Pieces
pub mod Transfer
pub mod Filled
pub mod Stream
pub mod Slide
pub mod Loop
pub mod Twice
pub mod Lost
mod Tests
use project.Base.{ℕ, ◌<◌, ◌≡◌, ◌⊎◌, Bool, List, [], ◌∷◌, get_or, All}
use project.CBuffer.{PackNode}
use project.Sender.{Outcome, ok, ◌>>=◌, Datagram, troll, timer, host}
use project.SBuffer.{SBuffer}
use project.Tcpds.{Stale, Daemon, remote_is_set}
use project.Tcpds.Store.{sbuffer}

-- The datagrams that go to the troll.
pub to_troll : List Datagram → List (List ℕ)
to_troll [] = []
to_troll ((troll, bytes) ∷ r) = bytes ∷ to_troll r
to_troll ((timer, bytes) ∷ r) = to_troll r
to_troll ((host, bytes) ∷ r) = to_troll r

-- The elements at these places.
abbrev pub pick {ℓ} : {A : Type ℓ} → A → List ℕ → List A → List A
pick d [] xs = []
pick d (i ∷ order) xs = get_or xs i d ∷ pick d order xs

abbrev pub Occurs : ℕ → List ℕ → Type 0
Occurs i [] = ⊥
Occurs i (j ∷ r) = (i ≡ j) ⊎ Occurs i r

-- An order in which each of `n` datagrams comes at least once, and no other.
pub record IsOrder (n : ℕ) (order : List ℕ) : Type 0 where
  pub within : All (λ i. i < n) order
  pub complete : (i : ℕ) → i < n → Occurs i order

-- The daemon takes these datagrams in.
pub receive_datagrams :
    (ℕ → Bool) → Stale → List (List ℕ) → Daemon SBuffer → Outcome (Daemon SBuffer)
receive_datagrams refused stale [] d = ok d
receive_datagrams refused stale (m ∷ ms) d =
    remote_is_set sbuffer refused stale m d >>= λ d'. receive_datagrams refused stale ms d'

-- A packet that was not sent yet, with 1000 bytes.
abbrev pub IsWhole : PackNode → Type 0
IsWhole n = (n.ack ≡ 0) × (n.size ≡ 1000)
