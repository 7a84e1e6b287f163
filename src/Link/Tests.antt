-- ===== src/Link/Tests.antt =====
-- The way through the network at a concrete window.
use project.Base.{
  ℕ, zero, suc, ◌≤◌, ◌<◌, ◌≡◌, inl, inr, refl, length, drop, All, true, false, none, List, [], ◌∷◌,
  ◌++◌, arith, map, length-replicate, replicate, take,
}
use native.Mathlib.Decide.{dec_lt}
use project.Int.{pos, ◌+ℤ◌}
use project.CBuffer.{PackNode}
use project.CBuffer.Space.{used, used_cases}
use project.CBuffer.Ring.{contents}
use project.CBuffer.Invariant.{IsValid}
use project.Sender.{ok, ◌>>=◌, RttPack, Sender, System, make_remote, send_window}
use project.Sender.Rtt.{Float, initial}
use project.SBuffer.{SBuffer, initialize}
use project.SBuffer.Read.{cut}
use project.Tcpds.{Stale, Daemon, Peer}
use project.Tcpds.Reassembly.{ToNetwork, to_ftps, serve_requests}
use project.Link.{to_troll, pick, Occurs, IsOrder, receive_datagrams}
use project.Tcpdc.{from_timer}
use project.Outcome.{fault}
use project.TimerProcess.{TimerProcess, Unknown}
use project.Link.Lost.{arrived, timed, send_window-timer_expire}
use project.Link.Twice.{to_timer}
use project.Ftpc.Blocks.{joined}
use project.Link.Stream.{loaded, add_blocks-serve_requests}
use project.Link.Slide.{receive_acks}
use project.Link.Loop.{to_network, send_window-receive_acks}
use project.Link.Transfer.{IsFresh, send_window-serve_requests}

-- Nothing behind a datagram, and a pointer that cannot be read through.
abbrev bare : Stale
bare = record { behind = []; pointed = none }

-- The estimate plays no part here.
abbrev flat : Float
flat = record {
  Double = ℕ;
  of_int = λ z. 0;
  add = λ x y. x;
  sub = λ x y. x;
  mul = λ x y. x;
  div = λ x y. x;
  fabs = λ x. x;
  eqb = λ x y. true;
}

abbrev quiet : System
quiet = record {
  clock = λ k. record { tv_sec = pos 6; tv_nsec = pos 0 };
  refused = λ k. false;
  past = λ k. [];
}

abbrev fresh_node : ℕ → ℕ → PackNode
fresh_node seqnum dat = record { seqnum = seqnum; dat = dat; size = 1000; ack = 0 }

abbrev free_slot : RttPack
free_slot = record { bsn = 0; on = false; timestart = record { tv_sec = pos 0; tv_nsec = pos 0 } }

-- Two packets that wait to be sent.
abbrev client : Sender ℕ
client = record {
  buffer = record {
    cirbuffer = replicate 64000 7;
    nodes = fresh_node 1 0 ∷ (fresh_node 2 1000 ∷ []);
    dstart = 0;
    dend = 2000;
    windowend = 2000;
    packseq = 3;
    is_empty = false;
  };
  packtimes = free_slot ∷ (free_slot ∷ []);
  rtt = initial flat;
  remote = make_remote (164 ∷ 107 ∷ 112 ∷ 71 ∷ []);
  readings = 0;
  sends = 0;
  outbox = [];
}

abbrev server : Daemon SBuffer
server = record { remote = 0 ∷ 2 ∷ []; store = initialize; sends = 0; outbox = [] }

used-client : used client.buffer ≡ 2000
used-client =
    omega
      (arith, used_cases client.buffer (record { start_in = omega arith; end_in = omega arith }))

client-IsFresh : IsFresh client.buffer
client-IsFresh = record {
  valid = record {
    sound = record {
      range = record { start_in = omega arith; end_in = omega arith };
      whole = length-replicate 64000 7;
      numbered = omega arith;
      chain = ground arith;
      in_window = omega arith;
      held = omega (arith, used-client);
    };
    covers = omega (arith, used-client);
    waits = λ e. omega arith;
  };
  from_one = omega arith;
  whole_packets = ((refl, refl), ((refl, refl), tt));
}

-- The second comes first, and again.
abbrev order : List ℕ
order = 1 ∷ (0 ∷ (1 ∷ []))

order-IsOrder : IsOrder 2 order
order-IsOrder = record { within = omega arith; complete = λ i h. omega arith }

send_window-serve_requests_example :
    (s' : Sender ℕ) × (send_window flat quiet client ≡ ok s')
    × (acks : List (Peer × List ℕ)) × (d' : Daemon SBuffer) × ((receive_datagrams
            (λ k. false)
            bare
            (pick [] order (to_troll s'.outbox))
            server
          >>= λ d''. serve_requests (λ k. false) (25 ∷ (1000 ∷ [])) d'')
        ≡ ok d')
    × (d'.outbox
        ≡ ([] ++ acks) ++ map to_ftps (cut (25 ∷ (1000 ∷ [])) (take 2000 (contents client.buffer))))
    × ToNetwork acks
unfolding to_troll
send_window-serve_requests_example =
    send_window-serve_requests flat quiet (λ k. refl) (λ k. false) (λ k. refl) bare client server
      order (25 ∷ (1000 ∷ [])) client-IsFresh (omega (arith, length-replicate {A = ℕ} 8 0))
      (omega arith) refl refl order-IsOrder (omega arith, (omega arith, tt)) (omega arith)

-- The acknowledgements come back in reverse.
abbrev reverse_order : ℕ → List ℕ
reverse_order zero = []
reverse_order (suc n) = n ∷ reverse_order n

reverse_order-IsOrder : (n : ℕ) → IsOrder n (reverse_order n)
reverse_order-IsOrder n = record { within = below n n (omega arith); complete = occurs n }
  where
    below : (m k : ℕ) → k ≤ m → All (λ i. i < m) (reverse_order k)
    below m zero h = tt
    below m (suc k) h = (omega arith, below m k (omega arith))

    occurs : (k i : ℕ) → i < k → Occurs i (reverse_order k)
    occurs zero i h = absurd (omega arith)
    occurs (suc k) i h = elim (dec_lt i k) [ yes l ↦ inr (occurs k i l) | no g ↦ inl (omega arith) ]

abbrev waiting_server : Daemon SBuffer
waiting_server = record {
  remote = make_remote (164 ∷ 107 ∷ 112 ∷ 71 ∷ []);
  store = initialize;
  sends = 0;
  outbox = [];
}

send_window-receive_acks_example :
    (s' : Sender ℕ) × (d' : Daemon SBuffer) × (s'' : Sender ℕ) × (send_window flat quiet client
      ≡ ok s')
    × (receive_datagrams (λ k. false) bare (pick [] order (to_troll s'.outbox)) waiting_server
        ≡ ok d')
    × (receive_acks flat quiet
          (pick [] (reverse_order (length (to_network d'.outbox))) (to_network d'.outbox))
          s'
        ≡ ok s'')
    × (contents s''.buffer ≡ drop 2000 (contents client.buffer))
    × IsValid s''.buffer
unfolding to_troll to_network
send_window-receive_acks_example =
    send_window-receive_acks flat quiet (λ k. refl) (λ k. false) (λ k. refl) bare client
      waiting_server order reverse_order client-IsFresh (omega arith)
      (omega (arith, length-replicate {A = ℕ} 8 0)) (omega arith) refl refl
      (omega (arith, length-replicate {A = ℕ} 8 0)) refl order-IsOrder reverse_order-IsOrder

-- One packet that waits to be sent.
abbrev small_client : Sender ℕ
small_client = record client {
  buffer = record (client.buffer) {
    nodes = fresh_node 1 0 ∷ [];
    dend = 1000;
    windowend = 1000;
    packseq = 2;
  };
}

used-small_client : used small_client.buffer ≡ 1000
used-small_client = omega (
  arith,
  used_cases small_client.buffer (record { start_in = omega arith; end_in = omega arith }),
)

small_client-IsFresh : IsFresh small_client.buffer
small_client-IsFresh = record {
  valid = record {
    sound = record {
      range = record { start_in = omega arith; end_in = omega arith };
      whole = length-replicate 64000 7;
      numbered = omega arith;
      chain = ground arith;
      in_window = omega arith;
      held = omega (arith, used-small_client);
    };
    covers = omega (arith, used-small_client);
    waits = λ e. omega arith;
  };
  from_one = omega arith;
  whole_packets = ((refl, refl), tt);
}

abbrev idle_timers : TimerProcess
idle_timers = record { nodes = []; prev = pos 5000; notices = [] }

abbrev open_round : Unknown
open_round = record { inserting = λ y n. true; passing = λ n. true; overrun = λ y o. fault }

send_window-timer_expire_example :
    (once again s' : Sender ℕ) × (t' : TimerProcess) × (d' : Daemon SBuffer) × (send_window flat
        quiet small_client
      ≡ ok once)
    × (timed
          (to_timer once.outbox)
          (open_round, pos 5010)
          ((open_round, pos 5500) ∷ [])
          (open_round, pos 6003)
          idle_timers
        ≡ ok t')
    × (send_window flat quiet (from_timer flat quiet (arrived t'.notices) once) ≡ ok again)
    × (receive_datagrams (λ k. false) bare (drop 1 (to_troll again.outbox)) waiting_server ≡ ok d')
    × (receive_acks flat quiet (to_network d'.outbox) again ≡ ok s')
    × (contents s'.buffer ≡ drop 1000 (contents small_client.buffer))
    × IsValid s'.buffer
unfolding to_troll to_network to_timer ◌+ℤ◌
send_window-timer_expire_example =
    send_window-timer_expire flat quiet (λ k. refl) (λ k. false) (λ k. refl) bare small_client
      waiting_server idle_timers (fresh_node 1 0) (open_round, pos 5010)
      ((open_round, pos 5500) ∷ []) (open_round, pos 6003) small_client-IsFresh refl (omega arith)
      (omega (arith, length-replicate {A = ℕ} 8 0)) (omega arith) refl refl refl refl
      (refl, (refl, tt)) refl refl (omega (arith, length-replicate {A = ℕ} 8 0)) refl

-- Two blocks, from the start of both daemons.
abbrev two_blocks : List (List ℕ)
two_blocks = replicate 1000 1 ∷ (replicate 1000 2 ∷ [])

add_blocks-serve_requests_example :
    (s' : Sender ℕ) × (send_window flat quiet (loaded flat (164 ∷ 107 ∷ 112 ∷ 71 ∷ []) two_blocks)
      ≡ ok s')
    × (acks : List (Peer × List ℕ)) × (d' : Daemon SBuffer) × ((receive_datagrams
            (λ k. false)
            bare
            (pick [] order (to_troll s'.outbox))
            server
          >>= λ d''. serve_requests (λ k. false) (25 ∷ (1000 ∷ [])) d'')
        ≡ ok d')
    × (d'.outbox ≡ ([] ++ acks) ++ map to_ftps (cut (25 ∷ (1000 ∷ [])) (joined two_blocks)))
    × ToNetwork acks
add_blocks-serve_requests_example =
    add_blocks-serve_requests flat quiet (λ k. refl) (λ k. false) (λ k. refl) bare
      (164 ∷ 107 ∷ 112 ∷ 71 ∷ []) two_blocks server order (25 ∷ (1000 ∷ [])) refl
      (length-replicate 1000 1, (length-replicate 1000 2, tt)) (omega arith) refl order-IsOrder
      (omega arith, (omega arith, tt)) (omega arith)
