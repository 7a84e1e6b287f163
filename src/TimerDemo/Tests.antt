-- ===== src/TimerDemo/Tests.antt =====
-- timerDEMO.c at a kernel that grants everything.
use project.Base.{ℕ, ◌≡◌, refl, true, false, Option, some, List, [], ◌∷◌}
use project.Outcome.{Outcome, ok, exited, fault, hangs}
use project.Words.{read_be32}
use project.TimerClient.{starttimer}
use project.TcpApi.{Kernel, Api, inet, local_host, socket, bind, set_send_address, send}
use project.TimerDemo.{create_connection, start_timer, main, expired}

abbrev generous : Kernel
generous = record { socket = λ n. some n; bind = λ fd addr. true; refused = λ n. false }

abbrev requests_of : Outcome Api → List (Option ℕ × List ℕ × List ℕ)
requests_of (ok a) = a.outbox
requests_of exited = []
requests_of fault = []
requests_of hangs = []

-- The three requests, with 20.32, 10.05 and 30 seconds, go to the timer process.
three_requests :
    requests_of (main generous)
    ≡ (some 0, inet 3132 local_host, starttimer 20320 1)
      ∷ ((some 0, inet 3132 local_host, starttimer 10050 2)
          ∷ ((some 0, inet 3132 local_host, starttimer 30000 3) ∷ []))
unfolding main create_connection start_timer socket bind set_send_address send
three_requests = refl

printed : expired ((0 ∷ 0 ∷ 0 ∷ 2 ∷ []) ∷ ((0 ∷ 0 ∷ 0 ∷ 1 ∷ []) ∷ [])) ≡ 2 ∷ 1 ∷ []
unfolding expired read_be32
printed = refl
