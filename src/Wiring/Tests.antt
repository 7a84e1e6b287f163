-- ===== src/Wiring/Tests.antt =====
-- The programs' sockets with kernels that grant everything.
use project.Base.{ℕ, Option, none, ◌≡◌, ◌↔◌, refl, true, false, some, List, [], ◌∷◌}
use project.TcpApi.{Kernel, Api, unused, local_host, socket, bind, set_send_address}
use project.TcpApi.Calls.{Hears}
use project.Ftpc.Setup as Ftpc
use project.Ftps.Setup as Ftps
use project.TimerProcess.Setup as TimerProcess
use project.Sender.{make_remote}
use project.TimerClient.{timer_address}
use project.Outcome.{Outcome, ok, exited, fault, hangs}
use project.Sender.{make_remote}
use project.TimerClient.{timer_address}
use project.Tcpdc.Setup as Tcpdc
use project.Tcpds.Setup as Tcpds
use project.Ftpc.Setup as Ftpc
use project.Ftps.Setup as Ftps
use project.TimerProcess.Setup as TimerProcess
use project.Wiring.{connections-Hears, acks-Hears}

abbrev generous : Kernel
generous = record { socket = λ n. some n; bind = λ fd addr. true; refused = λ n. false }

abbrev far : List ℕ
far = 10 ∷ 0 ∷ 0 ∷ 7 ∷ []

abbrev result_of : {A : Type 0} → A → Outcome A → A
result_of d (ok a) = a
result_of d exited = d
result_of d fault = d
result_of d hangs = d

abbrev client : Tcpdc.Connection × Api
client =
    result_of
      (record { host_sockfd = 0; remote_sockfd = 0; timer_sockfd = some 0; sendhost = [] }, unused)
      (Tcpdc.create_connection generous unused)

abbrev server : Tcpds.Connection × Api
server =
    result_of
      (
        record {
          host_sockfd = 0;
          remote_sockfd = 0;
          ftpsaddr = [];
          trolladdr = [];
          pack_remote = [];
        },
        unused,
      )
      (Tcpds.create_connection generous far unused)

client_up : Tcpdc.create_connection generous unused ≡ ok client
unfolding Tcpdc.create_connection socket bind
client_up = refl

server_up : Tcpds.create_connection generous far unused ≡ ok server
unfolding Tcpds.create_connection socket bind
server_up = refl

acks-Hears_example : Hears client.1 client.0.remote_sockfd server.0.pack_remote ↔ (far ≡ local_host)
acks-Hears_example =
    acks-Hears generous generous far client.0 client.1 server.0 server.1 refl client_up server_up

abbrev sending : ℕ × Option ℕ × Api
sending = result_of (0, none, unused) (Ftpc.create_connection generous far unused)

abbrev asking : ℕ × Api
asking = result_of (0, unused) (Ftps.open_socket generous unused)

abbrev timing : ℕ × Api
timing = result_of (0, unused) (TimerProcess.open_socket generous unused)

sending_up : Ftpc.create_connection generous far unused ≡ ok sending
unfolding Ftpc.create_connection socket bind set_send_address
sending_up = refl

asking_up : Ftps.open_socket generous unused ≡ ok asking
unfolding Ftps.open_socket socket bind set_send_address
asking_up = refl

timing_up : TimerProcess.open_socket generous unused ≡ ok timing
unfolding TimerProcess.open_socket socket bind set_send_address
timing_up = refl

connections-Hears_example :
    Hears client.1 client.0.host_sockfd sending.2.dest_addr
    × Hears server.1 server.0.remote_sockfd (make_remote (10 ∷ 0 ∷ 0 ∷ 9 ∷ []))
    × Hears server.1 server.0.host_sockfd asking.1.dest_addr
    × Hears asking.1 asking.0 server.0.ftpsaddr
    × Hears timing.1 timing.0 timer_address
    × ((n : ℕ) × (client.0.timer_sockfd ≡ some n) × Hears client.1 n timing.1.dest_addr)
connections-Hears_example =
    connections-Hears generous generous generous generous generous (10 ∷ 0 ∷ 0 ∷ 9 ∷ []) far far
      client.0 client.1 server.0 server.1 sending asking timing refl sending_up client_up server_up
      asking_up timing_up
