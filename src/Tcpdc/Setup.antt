-- ===== src/Tcpdc/Setup.antt =====
-- tcpdc.c: `createConnection`, and `main` with the rounds of its loop.
use project.Base.{ℕ, ◌==◌, false, Option, some, List, [], ◌∷◌, if◌then◌else◌}
use project.TcpApi.{Kernel, Api, inet, local_host, unused, socket, bind, must_open, must_bind}
use project.Sender.{Outcome, ok, exited, ◌>>=◌, System, start}
use project.Sender.Rtt.{Float}
use project.Tcpdc.{Client, receive_and_send}

-- The descriptors and the address of ftpc.
pub record Connection : Type 0 where
  pub host_sockfd : ℕ
  pub remote_sockfd : ℕ
  pub timer_sockfd : Option ℕ
  pub sendhost : List ℕ

-- `createConnection`; of the third socket the pointer is tested, not the descriptor.
unfoldable pub create_connection : Kernel → Api → Outcome (Connection × Api)
create_connection k a =
    let (host, a1) = socket k a in
    let (remote, a2) = socket k a1 in
    let (timer, a3) = socket k a2 in
    must_open (host, a3) >>= λ h. must_open (remote, a3) >>= λ r.
    must_bind (bind k (some h.0) (inet 5000 local_host) a3) >>= λ a4.
    must_bind (bind k (some r.0) (inet 6000 local_host) a4) >>= λ a5.
    must_bind (bind k timer (inet 6520 local_host) a5) >>= λ a6. ok (
      record {
        host_sockfd = h.0;
        remote_sockfd = r.0;
        timer_sockfd = timer;
        sendhost = inet 3000 local_host;
      },
      a6,
    )

-- What a round finds: the array on the stack, and what has come in from ftpc, the network and the
-- timer process.
pub record Arrivals : Type 0 where
  pub temp : List ℕ
  pub block : Option (List ℕ)
  pub acks : Option (List ℕ)
  pub notices : Option (List ℕ)

module _ (fl : Float) (sys : System) where
  open fl use {Double}

  -- The loop of `main`, as far as it has come.
  pub rounds : List Arrivals → Client Double → Outcome (Client Double)
  rounds [] c = ok c
  rounds (i ∷ is) c =
      receive_and_send fl sys i.temp i.block i.acks i.notices c >>= λ c'. rounds is c'

  -- `main`, with the address that `inet_addr(argv[1])` gives.
  pub main : Kernel → ℕ → List ℕ → List Arrivals → Outcome (Client Double)
  main k args ip is =
      if args == 2
      then (create_connection k unused >>= λ o.
          rounds is (record { sender = start fl ip; temp_stored = false; bread = 0 }))
      else exited
