-- ===== src/SBuffer/Tests.antt =====
-- sbuffer.c at concrete packets and calls.
use project.Base.{
  ℕ, zero, suc, ◌+◌, ◌-◌, ◌≤◌, ◌<◌, ◌≡◌, ◌≢◌, refl, true, false, List, [], ◌∷◌, arith, length,
  length-replicate, replicate, take, ◌==◌, if◌then◌else◌, some, none, map,
}
use project.Int.{pos, ◌+ℤ◌, ◌-ℤ◌}
use project.CBuffer.Ring.{ring as bytes_from}
use project.SBuffer.{
  CirNode, SBuffer, initialize, head_node, Run, returns, endless, faults, unfinished, ◌>>=◌, joins,
  blends, join, blend, join_all, blend_all, closes, advance, absorb, merge_from, merge_list,
  packet_node, wrap, split_hole, fill_hole, fill, fill_beginning, fill_middle, fill_end,
  write_packet, store, try_node, scan, add_data, get_size, read_packet, take_whole, take_part,
  request_data,
}
use project.SBuffer.Merge.{merge_list-finishes}
use project.SBuffer.Machine.Simulation.{RunsAs, merge_list-runs}
use project.SBuffer.Capacity.{total, start, added, Reach-total}
use project.SBuffer.Window.{
  IsWindow, initialize-IsWindow, received, received-initialize, is_some, add_data-received,
  add_data_again,
}
use project.SBuffer.Deliver.{deliver, first_of}
use project.SBuffer.Read.{requests, cut, stream, deliver-requests}
use project.SBuffer.Exchange.{exchanges, exchanges-in_order}
use project.SBuffer.Stuck.{AllReady, request_data-closed, request_data-endless}

abbrev ones : List ℕ
ones = replicate 1000 1

abbrev twos : List ℕ
twos = replicate 1000 2

-- A buffer without its array, to follow the nodes.
abbrev bare : SBuffer
bare = record { buffer = []; ring = head_node ∷ []; dstart = 1; dend = 1 }

-- Packets `q` and the `left` behind it.
add_run : ℕ → ℕ → SBuffer → Run SBuffer
add_run q zero b = returns b
add_run q (suc left) b = add_data q 1000 [] b >>= λ o. add_run (q + 1) left o.1

unfoldable state : Run (ℕ × SBuffer) → List CirNode
state (returns o) = o.1.ring
state endless = []
state faults = []
state unfinished = []

-- Packet 3 comes first, into the middle of the hole.
middle_first :
    state (add_data 3 1000 [] bare)
    ≡ record { first_seq = 1; last_seq = 2; dat = pos 0; size = pos 2000; filled = false }
      ∷ (record { first_seq = 3; last_seq = 3; dat = pos 2000; size = pos 1000; filled = true }
          ∷ (record {
            first_seq = 4;
            last_seq = 64;
            dat = pos 3000;
            size = pos 61000;
            filled = false;
          }
              ∷ []))
unfolding add_data merge_list merge_from absorb join_all blend_all joins blends closes advance scan
    try_node fill fill_middle packet_node wrap store write_packet ◌+ℤ◌ ◌-ℤ◌ state
middle_first = refl

-- Once the first packet was read, the rest of the window filled from its end and read whole makes the
-- server hang.
hang :
    (do
      o ← add_data 1 1000 [] bare
      p ← request_data 1000 o.1
      q ← add_data 64 1000 [] p.1
      r ← add_run 2 62 q.1
      request_data 63000 r)
    ≡ endless
unfolding add_run add_data merge_list merge_from absorb join_all blend_all joins blends join blend
    closes advance scan try_node fill fill_beginning split_hole fill_hole fill_middle fill_end
    packet_node wrap store write_packet request_data take_whole read_packet ◌+ℤ◌ ◌-ℤ◌
hang = refl

-- A read of 25 bytes leaves a node of 975, and the array's other bytes are as far away as before.
read_in_part :
    (do o ← add_data 1 1000 [] bare; p ← request_data 25 o.1; returns p.1.ring)
    ≡ returns (
        record { first_seq = 1; last_seq = 1; dat = pos 25; size = pos 975; filled = true }
        ∷ (record { first_seq = 2; last_seq = 64; dat = pos 1000; size = pos 63000; filled = false }
            ∷ []))
unfolding add_data merge_list merge_from absorb join_all blend_all joins blends join blend closes
    advance scan try_node fill fill_beginning split_hole packet_node store write_packet request_data
    take_part read_packet ◌+ℤ◌ ◌-ℤ◌
read_in_part = refl

size_of_head : (add_data 1 1000 [] bare >>= λ o. get_size o.1) ≡ returns (pos 1000)
unfolding add_data merge_list merge_from absorb join_all blend_all joins blends join blend closes
    advance scan try_node fill fill_beginning split_hole packet_node store write_packet get_size
    ◌+ℤ◌ ◌-ℤ◌
size_of_head = refl

merge_list-finishes_example : merge_list 1 (head_node ∷ (head_node ∷ [])) ≢ unfinished
merge_list-finishes_example = merge_list-finishes 1 (head_node ∷ (head_node ∷ []))

merge_list-runs_example :
    RunsAs 1
      (record { front = []; current = head_node; behind = head_node ∷ [] })
      (merge_list 1 (head_node ∷ (head_node ∷ [])))
merge_list-runs_example = merge_list-runs 1 head_node (head_node ∷ [])

full : length ones ≡ 1000
full = length-replicate 1000 1

full_twos : length twos ≡ 1000
full_twos = length-replicate 1000 2

-- Packet 1 in the buffer.
abbrev first_stored :
    (b' : SBuffer) × (add_data 1 1000 ones initialize ≡ returns (1, b'))
    × IsWindow b'
    × ((k : ℕ) → received b' k ≡ (if k == 1 then some (take 1000 ones) else received initialize k))
first_stored =
    add_data-received 1 ones initialize initialize-IsWindow (omega arith) (omega arith)
      (omega (arith, full)) (received-initialize 1)

add_data-received_example :
    (b' : SBuffer) × (add_data 2 1000 twos initialize ≡ returns (1, b'))
    × IsWindow b'
    × ((k : ℕ) → received b' k ≡ (if k == 2 then some (take 1000 twos) else received initialize k))
add_data-received_example =
    add_data-received 2 twos initialize initialize-IsWindow (omega arith) (omega arith)
      (omega (arith, full_twos)) (received-initialize 2)

first_there : received first_stored.0 1 ≢ none
first_there e = cc (first_stored.3 1)

stored_again :
    (b' : SBuffer) × (add_data 1 1000 twos first_stored.0
      ≡ returns ((if is_some (received first_stored.0 (1 - 1)) then 0 else 1), b'))
    × IsWindow b'
    × ((k : ℕ) → received b' k ≡ received first_stored.0 k)
stored_again =
    add_data_again 1 twos first_stored.0 first_stored.2 (omega arith) (omega arith) first_there

first_total : total first_stored.0.ring +ℤ pos 0 ≡ pos 64000
first_total = Reach-total (added start 1 1000 ones 1 first_stored.1)

abbrev swapped : List (ℕ × List ℕ)
swapped = (2, twos) ∷ ((1, ones) ∷ ((2, ones) ∷ []))

both_there : (k : ℕ) → 1 ≤ k → k ≤ 2 → is_some (first_of swapped k) ≡ true
unfolding first_of
both_there k lo hi = ground arith

delivered_and_read :
    (b' : SBuffer) × ((deliver swapped initialize >>= λ b. requests (25 ∷ (1500 ∷ [])) b)
      ≡ returns (cut (25 ∷ (1500 ∷ [])) (stream swapped 2), b'))
delivered_and_read =
    deliver-requests swapped 2 (25 ∷ (1500 ∷ []))
      (
        (omega arith, omega arith, omega (arith, full_twos)),
        (
          (omega arith, omega arith, omega (arith, full)),
          ((omega arith, omega arith, omega (arith, full)), tt),
        ),
      )
      (omega arith) both_there (omega arith)

exchanges-in_order_example :
    (b : SBuffer) × (exchanges 1 (ones ∷ (twos ∷ [])) initialize
      ≡ returns (map (take 1000) (ones ∷ (twos ∷ [])), b))
    × (length (ones ∷ (twos ∷ [])) ≡ 65 → add_data 66 1000 ones b ≡ faults)
exchanges-in_order_example =
    exchanges-in_order (ones ∷ (twos ∷ [])) ones (omega arith)
      (omega (arith, full), (omega (arith, full_twos), tt))

-- All 64 packets, not read yet.
abbrev all_packets : CirNode
all_packets = record { first_seq = 1; last_seq = 64; dat = pos 0; size = pos 64000; filled = true }

abbrev loaded : SBuffer
loaded = record { buffer = replicate 64000 9; ring = all_packets ∷ []; dstart = 1; dend = 64 }

abbrev all_ready : AllReady 64000 loaded all_packets
all_ready = record {
  length_is = length-replicate 64000 9;
  filled_is = refl;
  first_is = refl;
  in_order = omega arith;
  off = 0;
  more = 64000;
  dat_is = refl;
  size_is = refl;
  fits = omega arith;
  asked = omega arith;
}

request_data-closed_example :
    (b' : SBuffer) × (request_data 64000 loaded ≡ returns (bytes_from loaded.buffer 0 64000, b'))
    × ((q k : ℕ) (bytes : List ℕ) → 64 < q → add_data q k bytes b' ≡ returns (0, b'))
request_data-closed_example = request_data-closed 64000 loaded all_packets all_ready refl

-- The packets 2 to 64 behind the hole that packet 1 has left.
abbrev later_packets : CirNode
later_packets = record {
  first_seq = 2;
  last_seq = 64;
  dat = pos 1000;
  size = pos 63000;
  filled = true;
}

abbrev first_hole : CirNode
first_hole = record { first_seq = 1; last_seq = 1; dat = pos 0; size = pos 1000; filled = false }

abbrev later_loaded : SBuffer
later_loaded = record {
  buffer = replicate 64000 9;
  ring = later_packets ∷ (first_hole ∷ []);
  dstart = 2;
  dend = 64;
}

abbrev later_ready : AllReady 63000 later_loaded later_packets
later_ready = record {
  length_is = length-replicate 64000 9;
  filled_is = refl;
  first_is = refl;
  in_order = omega arith;
  off = 1000;
  more = 63000;
  dat_is = refl;
  size_is = refl;
  fits = omega arith;
  asked = omega arith;
}

request_data-endless_example : request_data 63000 later_loaded ≡ endless
request_data-endless_example =
    request_data-endless 63000 later_loaded later_packets first_hole later_ready refl refl
      (omega arith)
