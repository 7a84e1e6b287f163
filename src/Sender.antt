-- ===== src/Sender.antt =====
-- cbuffer.c: sending the window, timing the packets, and the two events that a packet can meet, an
-- acknowledgement or the end of its timer. Printing is left out.
-- The clock, the success of each `sendto` and the bytes behind a heap block come from outside; a
-- datagram that is sent is kept in `outbox`, in order, with the address that it goes to.
pub mod Rtt
pub mod Slots
pub mod Taken
pub mod Wire
pub mod Restamp
pub mod Tracks
pub mod Held
pub mod Keeps
pub mod Slide
pub mod Acks
pub mod Send
pub mod Ack
pub mod Expire
pub mod Overrun
mod Tests
use project.Base.{
  ℕ, zero, suc, ◌+◌, ◌-◌, ◌==◌, Bool, true, false, not, Option, none, some, List, [], ◌∷◌, ◌++◌,
  map, ltb, if◌then◌else◌, length, get_elem?, set, replicate, take, drop,
}
use project.Int.{pos}
use project.Words.{be32, le32}
use project.Crc32.{crc32}
pub use project.Outcome.{Outcome, ok, exited, fault, hangs, ◌>>=◌, of_option}
use project.CBuffer.{Buffer, PackNode, initialize, check_window, request_size, request_data}
use project.TimerClient.{starttimer, canceltimer}
use Rtt.{Float, Timespec, Estimator, initial, elapsed, time_comps}

-- `struct rttPack`; `on` is 0 or 1.
pub record RttPack : Type 0 where
  pub bsn : ℕ
  pub on : Bool
  pub timestart : Timespec

pub data Address : Type 0 where
  troll timer host : Address

abbrev pub Datagram : Type 0
Datagram = Address × List ℕ

-- The globals of the file, and what it has read from the clock and sent so far.
pub record Sender (D : Type 0) : Type 0 where
  pub buffer : Buffer
  pub packtimes : List RttPack
  pub rtt : Estimator D
  pub remote : List ℕ
  pub readings : ℕ
  pub sends : ℕ
  pub outbox : List Datagram

-- `pack.remote` as `makeConnections` fills it: the family and the port 6050 in network order, the
-- address that `inet_addr` gave, and `sin_zero`.
abbrev pub make_remote : List ℕ → List ℕ
make_remote ip = 0 ∷ 2 ∷ 0x17 ∷ 0xa2 ∷ (ip ++ replicate 8 0)

-- The loop `while (packtimes[i].on != 0) i++`; `none` runs off the array.
unfoldable pub free_slot : List RttPack → Option ℕ
free_slot [] = none
free_slot (p ∷ ps) =
    let later = free_slot ps in
    if p.on then elim later [ none ↦ none | some i ↦ some (suc i) ] else some 0

-- The loop `while (packtimes[i].bsn != num) i++`.
pub slot_of : ℕ → List RttPack → Option ℕ
slot_of num [] = none
slot_of num (p ∷ ps) =
    let later = slot_of num ps in
    if p.bsn == num then some 0 else elim later [ none ↦ none | some i ↦ some (suc i) ]

-- `packtimes[i].on = 0`
pub switch_off : ℕ → List RttPack → List RttPack
switch_off i [] = []
switch_off zero (p ∷ ps) = record p { on = false } ∷ ps
switch_off (suc i) (p ∷ ps) = p ∷ switch_off i ps

-- `current->ack = a` at the node at place `i`
unfoldable pub set_ack : ℕ → ℕ → List PackNode → List PackNode
set_ack a i [] = []
set_ack a zero (n ∷ r) = record n { ack = a } ∷ r
set_ack a (suc i) (n ∷ r) = n ∷ set_ack a i r

-- The search of `recvACK`; `none` where no packet has the number.
pub acknowledge : ℕ → List PackNode → Option (List PackNode)
acknowledge num [] = none
acknowledge num (n ∷ r) =
    let later = acknowledge num r in
    if n.seqnum == num
    then some (record n { ack = 2 } ∷ r)
    else elim later [ none ↦ none | some r' ↦ some (n ∷ r') ]

-- The two loops of `timerExpire`.
pub expire_node : ℕ → PackNode → PackNode
expire_node bsn n = if n.seqnum == bsn then record n { ack = 0 } else n

pub expire_slot : ℕ → RttPack → RttPack
expire_slot bsn p = if p.bsn == bsn then record p { on = false } else p

-- The bytes of a packet: the header that the troll reads, the checksum, the number, the data.
unfoldable pub packet : List ℕ → ℕ → List ℕ → ℕ → List ℕ
packet remote bsn bytes size =
    remote ++ (le32 (crc32 0x04c11db7 bytes size) ++ (le32 bsn ++ take size bytes))

-- What the file takes from the system: the readings of the clock in turn, whether a `sendto` fails
-- after so many have been made, and the heap behind a block of 8 bytes.
pub record System : Type 0 where
  pub clock : ℕ → Timespec
  pub refused : ℕ → Bool
  pub past : ℕ → List ℕ

module _ (fl : Float) where
  open fl use {Double}

  -- The state after `initialize`, on zeroed globals; `rttPackSetup` writes to a copy.
  unfoldable pub start : List ℕ → Sender Double
  start ip = record {
    buffer = initialize;
    packtimes = replicate 20 unused;
    rtt = initial fl;
    remote = make_remote ip;
    readings = 0;
    sends = 0;
    outbox = [];
  }
    where
      unused : RttPack
      unused = record {
        bsn = 0;
        on = false;
        timestart = record { tv_sec = pos 0; tv_nsec = pos 0 };
      }

  module _ (sys : System) where
    -- `setSendAddress` and `SEND`; the flag says that `sendto` failed.
    unfoldable pub send : Address → List ℕ → Sender Double → Bool × Sender Double
    send to bytes s =
        let s' = record s { sends = s.sends + 1 } in
        if sys.refused s.sends
        then (true, s')
        else (false, record s' { outbox = s.outbox ++ ((to, bytes) ∷ []) })

    -- The end of `sendWindow`'s branch: the packet goes out in slot `slot`, and its timer is started;
    -- the result of the second `SEND` is not looked at.
    unfoldable pub transmit : ℕ → ℕ → ℕ → ℕ → List ℕ → Sender Double → Outcome (Sender Double)
    transmit slot i bsn size bytes s =
        let entry : RttPack = record { bsn = bsn; on = true; timestart = sys.clock s.readings } in
        let (failed, s1) =
          send troll (packet s.remote bsn bytes size) (record s { readings = s.readings + 1 }) in
        let (_, s2) = send timer (starttimer 1000 bsn) s1 in
        let buffer' = record (s2.buffer) { nodes = set_ack 1 i s2.buffer.nodes } in
        if failed
        then exited
        else ok (record s2 { buffer = buffer'; packtimes = set s2.packtimes slot entry })

    -- The branch of `sendWindow` for a packet that is to be sent, the node at place `i`.
    unfoldable pub send_packet : ℕ → PackNode → Sender Double → Outcome (Sender Double)
    send_packet i n s =
        let (size, nodes1) = request_size n.seqnum s.buffer.nodes in
        let (found, nodes2) = request_data s.buffer.cirbuffer n.seqnum nodes1 in
        of_option found >>= λ bytes. of_option (free_slot s.packtimes) >>= λ slot.
        let buffer' = record (s.buffer) { nodes = nodes2 } in
        transmit slot i n.seqnum size bytes (record s { buffer = buffer' })

    -- `sendWindow`, with `left` nodes from place `i` on. A node that was sent has `ack` 1, so the
    -- next round only steps on.
    unfoldable pub send_from : ℕ → ℕ → Sender Double → Outcome (Sender Double)
    send_from zero i s = ok s
    send_from (suc left) i s = elim (get_elem? s.buffer.nodes i) [
      | none ↦ ok s
      | some n ↦ elim (ltb 0 n.ack) [
        | true ↦ send_from left (i + 1) s
        | false ↦ send_packet i n s >>= λ s'. send_from left (i + 1) s'
      ]
    ]

    unfoldable pub send_window : Sender Double → Outcome (Sender Double)
    send_window s = send_from (length s.buffer.nodes) 0 s

    -- The end of `recvACK`, behind `canceltimer`.
    pub mark_acked : ℕ → Sender Double → ℕ × Sender Double
    mark_acked num s = elim (acknowledge num s.buffer.nodes) [
      | none ↦ (0, s)
      | some nodes' ↦ (1, record s { buffer = check_window (record (s.buffer) { nodes = nodes' }) })
    ]

    -- The part of `recvACK` after the search of the slot.
    pub settle : ℕ → ℕ → RttPack → Sender Double → ℕ × Sender Double
    settle num slot p s =
        let delta = elapsed fl p.timestart (sys.clock s.readings) in
        let s1 = record s {
          readings = s.readings + 1;
          rtt = time_comps fl s.rtt delta;
          packtimes = switch_off slot s.packtimes;
        } in
        let (_, s2) = send timer (canceltimer (sys.past s1.sends) num) s1 in mark_acked num s2

    -- `recvACK`; a number that stands in no slot makes the search run off the array.
    pub recv_ack : ℕ → Sender Double → Outcome (ℕ × Sender Double)
    recv_ack num s = of_option (slot_of num s.packtimes) >>= λ slot.
        of_option (get_elem? s.packtimes slot) >>= λ p. ok (settle num slot p s)

    -- `timerExpire`
    pub timer_expire : ℕ → Sender Double → Sender Double
    timer_expire bsn s = record s {
      buffer = record (s.buffer) { nodes = map (expire_node bsn) s.buffer.nodes };
      packtimes = map (expire_slot bsn) s.packtimes;
    }
