-- ===== src/Tcpds/Setup.antt =====
-- tcpds.c: `createConnection`, and `main` with the rounds of its loop.
pub mod Keeps
pub mod Capacity
use project.Base.{
  ℕ, zero, suc, ◌+◌, Bool, true, false, Option, none, some, List, [], ◌∷◌, ◌++◌, ltb, replicate,
  if◌then◌else◌,
}
use project.TcpApi.{
  Kernel, Api, inet, local_host, any_address, unused, socket, bind, must_open, must_bind,
}
use project.Outcome.{Outcome, ok, exited, ◌>>=◌}
use project.Tcpds.{Stale, ServerBuffer, Daemon, host_is_set, remote_is_set}

-- The descriptors, the addresses of ftps and of the troll, and `pack.remote`.
pub record Connection : Type 0 where
  pub host_sockfd : ℕ
  pub remote_sockfd : ℕ
  pub ftpsaddr : List ℕ
  pub trolladdr : List ℕ
  pub pack_remote : List ℕ

-- `pack.remote`, which the troll reads: also the family is in network order.
abbrev pub pack_remote_for : List ℕ → List ℕ
pack_remote_for ip = 0 ∷ (2 ∷ (0x17 ∷ (0x70 ∷ (ip ++ replicate 8 0))))

-- `createConnection`, with the address that `inet_addr(serverAddress)` gives.
unfoldable pub create_connection : Kernel → List ℕ → Api → Outcome (Connection × Api)
create_connection k ip a = must_open (socket k a) >>= λ h.
    must_bind (bind k (some h.0) (inet 5050 any_address) h.1) >>= λ a2.
    must_open (socket k a2) >>= λ r.
    must_bind (bind k (some r.0) (inet 6050 any_address) r.1) >>= λ a4. ok (
      record {
        host_sockfd = h.0;
        remote_sockfd = r.0;
        ftpsaddr = inet 2000 local_host;
        trolladdr = inet 4000 local_host;
        pack_remote = pack_remote_for ip;
      },
      a4,
    )

-- What a round finds: a request of ftps, and a datagram of the network with what the array on the
-- stack holds behind it.
pub record Arrivals : Type 0 where
  pub request : Option (List ℕ)
  pub datagram : Option (List ℕ)
  pub stale : Stale

module _ (sb : ServerBuffer) (refused : ℕ → Bool) where
  open sb use {Store}

  -- `checkRead`
  unfoldable pub check_read : Arrivals → Daemon Store → Outcome (Daemon Store)
  check_read i d =
      let served : Outcome (Daemon Store) = elim i.request [
        | none ↦ ok d
        | some request ↦ host_is_set sb refused request d
      ] in
      served >>= λ d'. elim i.datagram [
        | none ↦ ok d'
        | some datagram ↦ remote_is_set sb refused i.stale datagram d'
      ]

  -- The loop of `main`, as far as it has come.
  unfoldable pub rounds : List Arrivals → Daemon Store → Outcome (Daemon Store)
  rounds [] d = ok d
  rounds (i ∷ is) d = check_read i d >>= λ d'. rounds is d'

  -- `main`, on the buffer that `initialize` makes.
  unfoldable pub main : Kernel → ℕ → List ℕ → Store → List Arrivals → Outcome (Daemon Store)
  main k args ip initial is =
      if ltb args 2
      then exited
      else create_connection k ip unused >>= λ o.
          rounds is (record { remote = o.0.pack_remote; store = initial; sends = 0; outbox = [] })
