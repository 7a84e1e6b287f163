-- ===== src/Tcpdc.antt =====
-- tcpdc.c: one call of `receiveAndSend`, the loop of the client's daemon. Setup has the sockets and
-- `main`; printing is left out, and `select` is the choice of what has come in. A datagram is at most as long
-- as the array that it is read into.
pub mod Round
pub mod Take
pub mod Rounds
pub mod Setup
mod Tests
use project.Base.{
  ℕ, zero, suc, ◌+◌, ◌*◌, ◌/◌, Bool, true, false, Option, none, some, List, [], ◌∷◌, ◌++◌, ◌==◌,
  length, drop, if◌then◌else◌,
}
use project.Words.{read_le32, read_be32}
use project.CBuffer.{add_data}
use project.Sender.{
  Sender, Outcome, ok, ◌>>=◌, host, System, send, send_window, recv_ack, timer_expire,
}
use project.Sender.Rtt.{Float}

-- The globals of the daemon; `bread` is the size of the last block of ftpc.
pub record Client (D : Type 0) : Type 0 where
  pub sender : Sender D
  pub temp_stored : Bool
  pub bread : ℕ

module _ (fl : Float) (sys : System) where
  open fl use {Double}

  -- `addData(temp, bread)`, and the answer to ftpc where the block is taken.
  pub offer : List ℕ → Client Double → Client Double
  offer temp c =
      let (result, buffer') = add_data c.sender.buffer temp c.bread in
      let s = record (c.sender) { buffer = buffer' } in
      if result == 1
      then record c { sender = (send fl sys host (49 ∷ []) s).1; temp_stored = false }
      else record c { sender = s; temp_stored = true }

  -- The first two parts. `temp` is what the array on the stack holds at the call: it is not kept from
  -- the call before. A block is only read where none is stored.
  pub take_block : List ℕ → Option (List ℕ) → Client Double → Client Double
  take_block temp arrived c =
      let c1 = if c.temp_stored then offer temp c else c in
      elim arrived [
        | none ↦ c1
        | some block ↦
            if c1.temp_stored
            then c1
            else offer (block ++ drop (length block) temp) (record c1 { bread = length block })
      ]

  -- The acknowledgements of a datagram, 20 bytes each, from place `at`.
  pub take_acks : List ℕ → ℕ → ℕ → Sender Double → Outcome (Sender Double)
  take_acks buffer zero at s = ok s
  take_acks buffer (suc nums) at s =
      recv_ack fl sys (read_le32 buffer (16 + at)) s >>= λ r. take_acks buffer nums (at + 20) r.1

  -- The notices of a datagram, 4 bytes each.
  pub take_notices : List ℕ → ℕ → ℕ → Sender Double → Sender Double
  take_notices buffer zero at s = s
  take_notices buffer (suc nums) at s =
      take_notices buffer nums (at + 4) (timer_expire fl sys (read_be32 buffer at) s)

  pub from_network : Option (List ℕ) → Sender Double → Outcome (Sender Double)
  from_network none s = ok s
  from_network (some datagram) s = take_acks datagram (length datagram / 20) 0 s

  pub from_timer : Option (List ℕ) → Sender Double → Sender Double
  from_timer none s = s
  from_timer (some datagram) s = take_notices datagram (length datagram / 4) 0 s

  -- `receiveAndSend`, with what has come in from ftpc, the network and the timer process.
  pub receive_and_send :
      List ℕ
      → Option (List ℕ)
      → Option (List ℕ)
      → Option (List ℕ)
      → Client Double
      → Outcome (Client Double)
  receive_and_send temp block acks notices c =
      let c1 = take_block temp block c in
      from_network acks c1.sender >>= λ s.
      send_window fl sys (from_timer notices s) >>= λ s'. ok (record c1 { sender = s' })
