-- ===== src/Tcpdc/Tests.antt =====
-- The client's daemon at concrete states, with a `double` that does not matter.
use project.Base.{
  ℕ, ◌<◌, List, Option, ◌≡◌, refl, Bool, false, some, none, [], ◌∷◌, ◌++◌, arith, replicate,
  replicate-suc, length-replicate,
}
use project.Int.{pos}
use project.Words.{le32}
use project.CBuffer.{
  add_data, space_left, write_data, check_window, advance, free_acked, move_window, distance,
  fill_window, fill, grow, cover, request_size, request_data,
}
use project.CBuffer.Ring.{contents}
use project.CBuffer.Invariant.{IsValid, initialize-IsValid}
use project.TimerProcess.{expiration}
use project.Sender.{
  Outcome, exited, fault, hangs, RttPack, free_slot, set_ack, send_window, send_from, send_packet,
  transmit, send, ok, ◌>>=◌, System, start, recv_ack, timer_expire,
}
use project.Sender.Rtt.{Float}
use project.Tcpdc.{Client, offer, receive_and_send, take_block, from_network, from_timer}
use project.Tcpdc.Take.{new_bytes}
use project.Tcpdc.Rounds.{started, round, Reach-contents}
use project.Tcpdc.Round.{Offered, from_network-ack, from_timer-expiration, take_block-Offered}

abbrev fixed : Float
fixed = record {
  Double = ℕ;
  of_int = λ n. 1;
  add = λ a b. a;
  sub = λ a b. a;
  mul = λ a b. a;
  div = λ a b. a;
  fabs = λ a. a;
  eqb = λ a b. false;
}

abbrev still : System
still = record {
  clock = λ k. record { tv_sec = pos 7; tv_nsec = pos 0 };
  refused = λ k. false;
  past = λ k. replicate 8 0;
}

abbrev fresh : Bool → ℕ → Client ℕ
fresh stored size = record { sender = start fixed []; temp_stored = stored; bread = size }

ack_taken :
    from_network fixed still (some (replicate 16 3 ++ le32 7)) (start fixed [])
    ≡ (recv_ack fixed still 7 (start fixed []) >>= λ r. ok r.1)
ack_taken =
    from_network-ack fixed still (replicate 16 3) 7 (start fixed []) (length-replicate 16 3)
      (omega arith)

notice_ends_timer :
    from_timer fixed still (some (expiration 7)) (start fixed [])
    ≡ timer_expire fixed still 7 (start fixed [])
notice_ends_timer = from_timer-expiration fixed still 7 (start fixed []) (omega arith)

take_block-Offered_example :
    Offered fixed still
      (5 ∷ 6 ∷ [])
      (fresh false 0)
      (take_block fixed still (1 ∷ 2 ∷ 3 ∷ []) (some (5 ∷ 6 ∷ [])) (fresh false 0))
unfolding start
take_block-Offered_example =
    take_block-Offered fixed still (1 ∷ 2 ∷ 3 ∷ []) (5 ∷ 6 ∷ []) (fresh false 0) initialize-IsValid
      refl (omega arith)

-- A first round, with a block of two bytes.
abbrev zeroes : List ℕ
zeroes = replicate 1000 0

abbrev block_of_two : Option (List ℕ)
block_of_two = some (5 ∷ 6 ∷ [])

abbrev client_of : Outcome (Client ℕ) → Client ℕ
client_of (ok c) = c
client_of exited = fresh false 0
client_of fault = fresh false 0
client_of hangs = fresh false 0

first_round : Outcome (Client ℕ)
first_round = receive_and_send fixed still zeroes block_of_two none none (fresh false 0)

abbrev unused : RttPack
unused = record { bsn = 0; on = false; timestart = record { tv_sec = pos 0; tv_nsec = pos 0 } }

first_free : free_slot (replicate 20 unused) ≡ some 0
unfolding free_slot
first_free = rw (replicate-suc 19 unused) refl

first_returns : first_round ≡ ok (client_of first_round)
unfolding first_round receive_and_send take_block offer from_network from_timer add_data space_left
    write_data check_window advance free_acked move_window distance fill_window fill grow cover
    free_slot set_ack send_window send_from send_packet transmit request_size request_data start
    send
first_returns = rw first_free refl

inside_array :
    (take_block fixed still zeroes block_of_two (fresh false 0)).sender.buffer.dend < 64000
unfolding take_block offer add_data space_left write_data check_window advance free_acked
    move_window distance fill_window fill grow cover start send
inside_array = omega arith

Reach-contents_example :
    ((gone : List ℕ) × ([] ++ new_bytes fixed still zeroes block_of_two (fresh false 0)
        ≡ gone ++ contents (client_of first_round).sender.buffer))
    × IsValid (client_of first_round).sender.buffer
unfolding first_round
Reach-contents_example = Reach-contents fixed still (
    round (started []) zeroes block_of_two none none (length-replicate 1000 0)
      (omega arith, omega arith) inside_array first_returns)
