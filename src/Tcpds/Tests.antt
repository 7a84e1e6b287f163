-- ===== src/Tcpds/Tests.antt =====
-- The server's daemon at concrete datagrams, with a buffer that keeps every packet.
use project.Base.{
  ℕ, some, ◌≤◌, ◌≢◌, ap, ◌∙◌, true, map, Option, none, length, ◌≡◌, refl, false, List, [], ◌∷◌,
  ◌++◌, arith, take, length-replicate, replicate, length-append, ◌==◌, if◌then◌else◌,
}
use project.Words.{le32}
use project.Crc32.{crc32}
use project.Sender.{ok, ◌>>=◌, packet}
use project.Tcpds.{Stale, ServerBuffer, Daemon, Peer, network, remote_is_set, check_packets}
use project.SBuffer.{SBuffer, initialize, returns}
use project.SBuffer.Window.{IsWindow, initialize-IsWindow, received, received-initialize, is_some}
use project.SBuffer.Deliver.{deliver-received, deliver, first_of, or_else}
use project.SBuffer.Read.{cut, stream}
use project.Int.{pos, ◌+ℤ◌}
use project.TcpApi.{Kernel, socket, bind}
use project.SBuffer.Capacity.{total, Reach}
use project.Tcpds.Setup.{Arrivals, pack_remote_for, create_connection, check_read, rounds, main}
use project.Tcpds.Setup.Capacity.{main-capacity}
use project.Tcpds.Store.{sbuffer, remote_is_set_again}
use project.Tcpds.Reassembly.{
  receive_packets, serve_requests, ToNetwork, to_ftps, receive_packets-serve_requests,
}
use project.Tcpds.Accept.{framed, remote_is_set-packet, remote_is_set_burst}

abbrev keeper : ServerBuffer
keeper = record {
  Store = List (ℕ × List ℕ);
  add_data = λ number size bytes s. ok (1, (number, take size bytes) ∷ s);
  request_data = λ size s. ok ([], s);
}

abbrev empty : Daemon (List (ℕ × List ℕ))
empty = record { remote = 0 ∷ 2 ∷ []; store = []; sends = 0; outbox = [] }

abbrev address : List ℕ
address = replicate 16 3

-- Nothing behind a datagram, and a pointer that cannot be read through.
abbrev bare : Stale
bare = record { behind = []; pointed = none }

remote_is_set-packet_example :
    remote_is_set keeper (λ k. false) bare (packet address 5 (replicate 1000 7) 1000) empty ≡ (
      keeper.add_data 5 1000 (replicate 1000 7 ++ []) empty.store >>= λ o. ok (
        if o.0 == 0 then record empty { store = o.1 } else record empty {
          store = o.1;
          sends = 1;
          outbox = (network, empty.remote ++ le32 5) ∷ [];
        }))
remote_is_set-packet_example =
    remote_is_set-packet keeper (λ k. false) bare address (replicate 1000 7) 5 empty (λ k. refl)
      (length-replicate 16 3) (length-replicate 1000 7) (omega arith)

remote_is_set_burst_example :
    remote_is_set keeper
      (λ k. false)
      bare
      (framed address
        (crc32 0x04c11db7 (replicate 900 7 ++ ((1 ∷ 2 ∷ []) ++ replicate 98 7)) 1000)
        5
        (replicate 900 7 ++ ((1 ∷ 9 ∷ []) ++ replicate 98 7)))
      empty
    ≡ ok empty
remote_is_set_burst_example =
    remote_is_set_burst keeper (λ k. false) bare address (replicate 900 7) (1 ∷ 2 ∷ []) (1 ∷ 9 ∷ [])
      (replicate 98 7) 5 empty (length-replicate 16 3)
      (omega (
        arith,
        length-append {A = ℕ} (replicate 900 7) ((1 ∷ 2 ∷ []) ++ replicate 98 7),
        length-replicate {A = ℕ} 900 7,
        length-replicate {A = ℕ} 98 7,
      ))
      (omega arith) (omega arith) (omega arith) refl (omega arith) (ground arith)

abbrev sevens : List ℕ
sevens = replicate 1000 7

sevens_full : length sevens ≡ 1000
sevens_full = length-replicate 1000 7

abbrev two_packets : List (ℕ × List ℕ)
two_packets = (2, sevens) ∷ ((1, sevens) ∷ [])

-- Packets 1 and 2 in the buffer.
abbrev both :
    (b' : SBuffer) × (deliver two_packets initialize ≡ returns b')
    × IsWindow b'
    × ((k : ℕ) → received b' k ≡ or_else (received initialize k) (first_of two_packets k))
both = deliver-received two_packets initialize initialize-IsWindow (
  (omega arith, omega arith, omega (arith, sevens_full)),
  ((omega arith, omega arith, omega (arith, sevens_full)), tt),
)

abbrev with_both : Daemon SBuffer
with_both = record { remote = 0 ∷ 2 ∷ []; store = both.0; sends = 0; outbox = [] }

received_both : (k : ℕ) → received both.0 k ≡ first_of two_packets k
received_both k =
    both.3 k
    ∙ ap (λ (o : Option (List ℕ)). or_else o (first_of two_packets k)) (received-initialize k)

second_there : received both.0 2 ≢ none
unfolding first_of
second_there e = cc (received_both 2)

first_there : is_some (received both.0 1) ≡ true
unfolding first_of
first_there = ap is_some (received_both 1)

remote_is_set_again_example :
    (d' : Daemon SBuffer) × (remote_is_set sbuffer
        (λ k. false)
        bare
        (packet address 2 sevens 1000)
        with_both
      ≡ ok d')
    × (d'.outbox ≡ with_both.outbox)
    × IsWindow d'.store
    × ((k : ℕ) → received d'.store k ≡ received with_both.store k)
remote_is_set_again_example =
    remote_is_set_again (λ k. false) (λ k. refl) bare address (length-replicate 16 3) 2 sevens
      with_both sevens_full (omega arith) (omega arith) both.2 second_there first_there

abbrev fresh : Daemon SBuffer
fresh = record { remote = 0 ∷ 2 ∷ []; store = initialize; sends = 0; outbox = [] }

both_there : (k : ℕ) → 1 ≤ k → k ≤ 2 → is_some (first_of two_packets k) ≡ true
unfolding first_of
both_there k lo hi = ground arith

swapped_packets :
    (acks : List (Peer × List ℕ)) × (d' : Daemon SBuffer) × ((receive_packets
          (λ k. false)
          bare
          address
          two_packets
          fresh
        >>= λ d''. serve_requests (λ k. false) (25 ∷ (1000 ∷ [])) d'')
      ≡ ok d')
    × (d'.outbox
        ≡ (fresh.outbox ++ acks) ++ map to_ftps (cut (25 ∷ (1000 ∷ [])) (stream two_packets 2)))
    × ToNetwork acks
swapped_packets =
    receive_packets-serve_requests (λ k. false) (λ k. refl) bare address (length-replicate 16 3)
      two_packets 2 (25 ∷ (1000 ∷ [])) fresh
      ((omega arith, omega arith, sevens_full), ((omega arith, omega arith, sevens_full), tt))
      (omega arith) both_there (omega arith, (omega arith, tt)) (omega arith) refl

-- Two rounds of tcpds in which an empty datagram, and nothing at all, has come.
abbrev quiet : List Arrivals
quiet =
    record { request = none; datagram = some []; stale = bare }
    ∷ (record { request = none; datagram = none; stale = bare } ∷ [])

abbrev waiting : Daemon SBuffer
waiting = record {
  remote = pack_remote_for (127 ∷ 0 ∷ 0 ∷ 1 ∷ []);
  store = initialize;
  sends = 0;
  outbox = [];
}

abbrev generous : Kernel
generous = record { socket = λ n. some n; bind = λ fd addr. true; refused = λ n. false }

quiet_rounds :
    main sbuffer (λ n. false) generous 2 (127 ∷ 0 ∷ 0 ∷ 1 ∷ []) initialize quiet ≡ ok waiting
unfolding main rounds check_read create_connection remote_is_set check_packets socket bind
quiet_rounds = refl

main-capacity_example :
    (lost : ℕ) × Reach lost waiting.store × (total waiting.store.ring +ℤ pos lost ≡ pos 64000)
main-capacity_example =
    main-capacity (λ n. false) generous 2 (127 ∷ 0 ∷ 0 ∷ 1 ∷ []) quiet waiting quiet_rounds
