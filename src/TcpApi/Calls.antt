-- ===== src/TcpApi/Calls.antt =====
-- What the calls of tcpapi.c that can fail come to, and which addresses a bound socket hears.
use project.Base.{
  ℕ, ◌≡◌, ◌⊎◌, refl, Option, none, some, List, [], ◌∷◌, ◌++◌, Bool-cases, inl, inr, take, drop,
  get_elem?,
}
use project.TcpApi.{Kernel, Api, any_address, bind, must_open, must_bind}
use project.Outcome.{Outcome, ◌>>=◌, Leaves}

-- The state when `addr` is bound to a descriptor.
abbrev pub bound_to : ℕ → List ℕ → Api → Api
bound_to fd addr a = record a { dest_addr = addr; bound = a.bound ++ ((fd, addr) ∷ []) }

-- A test that ends the program, and what follows it.
module _ {B : Type 0} (Q : B → Type 0) where
  pub open-Leaves :
      (p : Option ℕ × Api) (f : ℕ × Api → Outcome B)
      → ((fd : ℕ) → p.0 ≡ some fd → Leaves Q (f (fd, p.1)))
      → Leaves Q (must_open p >>= f)
  open-Leaves (none, a) f keep = tt
  open-Leaves (some fd, a) f keep = keep fd refl

  pub bind-Leaves :
      (k : Kernel) (fd : Option ℕ) (addr : List ℕ) (a : Api) (f : Api → Outcome B)
      → ((n : ℕ) → fd ≡ some n → Leaves Q (f (bound_to n addr a)))
      → Leaves Q (must_bind (bind k fd addr a) >>= f)
  unfolding bind
  bind-Leaves k none addr a f keep = tt
  bind-Leaves k (some n) addr a f keep = elim (Bool-cases (k.bind n addr)) [
    | inl granted ↦ rw granted (keep n refl)
    | inr refused ↦ rw refused tt
  ]

  pub bind_open-Leaves :
      (k : Kernel) (n : ℕ) (addr : List ℕ) (a : Api) (f : Api → Outcome B)
      → Leaves Q (f (bound_to n addr a))
      → Leaves Q (must_bind (bind k (some n) addr a) >>= f)
  unfolding bind
  bind_open-Leaves k n addr a f keep = elim (Bool-cases (k.bind n addr)) [
    | inl granted ↦ rw granted keep
    | inr refused ↦ rw refused tt
  ]

-- Port and address of a `sockaddr_in`, which are what a datagram finds its socket by.
abbrev pub port_of : List ℕ → List ℕ
port_of addr = take 2 (drop 2 addr)

abbrev pub ip_of : List ℕ → List ℕ
ip_of addr = take 4 (drop 4 addr)

-- A datagram for `dest` comes to a socket that is bound to `addr`.
abbrev pub Reaches : List ℕ → List ℕ → Type 0
Reaches dest addr =
    (port_of dest ≡ port_of addr) × ((ip_of addr ≡ any_address) ⊎ (ip_of dest ≡ ip_of addr))

-- Some address that the program has bound to the descriptor is reached.
abbrev pub Hears : Api → ℕ → List ℕ → Type 0
Hears a fd dest =
    (i : ℕ) × (addr : List ℕ) × (get_elem? a.bound i ≡ some (fd, addr)) × Reaches dest addr
