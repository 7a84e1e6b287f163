-- ===== src/Tcpds.antt =====
-- tcpds.c: what the server's daemon does with a datagram of the network and with a request of ftps.
-- The buffer of sbuffer.c is an interface; Setup has the sockets and the loop. Printing is left out.
-- `buffer` is an array of 20 * 1024 bytes on the stack: behind the datagram it holds what the stack
-- did.
pub mod Accept
pub mod Store
pub mod Reassembly
pub mod Acks
pub mod Setup
mod Tests
use project.Base.{
  ℕ, zero, suc, ◌+◌, ◌-◌, ◌*◌, ◌/◌, ◌%◌, Bool, Option, none, some, true, false, List, [], ◌∷◌, ◌++◌,
  ltb, ◌==◌, length, drop, if◌then◌else◌,
}
use project.Words.{le32, read_le32}
use project.Crc32.{crc32}
use project.Sender.{Outcome, ok, exited, fault, ◌>>=◌}

-- `addData` and `requestData` of sbuffer.c; the latter gives the bytes that it copies.
pub record ServerBuffer : Type 1 where
  pub Store : Type 0
  pub add_data : ℕ → ℕ → List ℕ → Store → Outcome (ℕ × Store)
  pub request_data : ℕ → Store → Outcome (List ℕ × Store)

-- What the stack holds when a datagram comes: the bytes of `buffer` behind it, and those that are read
-- through `tempbuf`, less the length of the last packet, while it is not set; `none` where that
-- faults.
pub record Stale : Type 0 where
  pub behind : List ℕ
  pub pointed : Option (List ℕ)

pub data Peer : Type 0 where
  network ftps : Peer

-- `pack.remote`, the buffer, and what was sent.
pub record Daemon (S : Type 0) : Type 0 where
  pub remote : List ℕ
  pub store : S
  pub sends : ℕ
  pub outbox : List (Peer × List ℕ)

module _ (sb : ServerBuffer) (refused : ℕ → Bool) where
  open sb use {Store, add_data, request_data}

  -- `setSendAddress` and `SEND`, with the exit where it fails.
  pub send : Peer → List ℕ → Daemon Store → Outcome (Daemon Store)
  send to bytes d =
      if refused d.sends
      then exited
      else ok (record d { sends = d.sends + 1; outbox = d.outbox ++ ((to, bytes) ∷ []) })

  -- `hostisset`, with the request that came in.
  pub host_is_set : List ℕ → Daemon Store → Outcome (Daemon Store)
  host_is_set request d =
      request_data (read_le32 request 0) d.store >>= λ o. send ftps o.0 (record d { store = o.1 })

  -- The write of a packet with a good checksum, and its acknowledgement.
  pub store_packet : ℕ → ℕ → List ℕ → Daemon Store → Outcome (Daemon Store)
  store_packet number size bytes d = add_data number size bytes d.store >>= λ o.
      let d' = record d { store = o.1 } in
      if o.0 == 0 then ok d' else send network (d.remote ++ le32 number) d'

  -- The packet that starts at `offset`; the checksum is taken over all that was read but 24 bytes.
  pub check_packet : List ℕ → ℕ → ℕ → Daemon Store → Outcome (Daemon Store)
  check_packet buffer read offset d =
      let crccheckval = read_le32 buffer (offset + 16) in
      let retcrc = crc32 0x04c11db7 (drop (offset + 24) buffer) (read - 24) in
      if retcrc == crccheckval
      then store_packet (read_le32 buffer (offset + 20)) 1000 (drop (offset + 24) buffer) d
      else ok d

  pub check_packets : List ℕ → ℕ → ℕ → ℕ → Daemon Store → Outcome (Daemon Store)
  check_packets buffer read zero offset d = ok d
  check_packets buffer read (suc left) offset d =
      check_packet buffer read offset d >>= λ d'. check_packets buffer read left (offset + 1024) d'

  -- The check and the write of what is left over, on the bytes from `tempbuf` less its length on.
  pub check_left : List ℕ → ℕ → Daemon Store → Outcome (Daemon Store)
  check_left bytes last_packet d =
      let retcrc = crc32 0x04c11db7 bytes last_packet in
      if retcrc == read_le32 bytes (last_packet + 16)
      then store_packet (read_le32 bytes 20) last_packet (drop 24 bytes) d
      else ok d

  -- The branch for what is left over: `tempbuf` still points to the last whole packet, and is not set
  -- where there was none; `fault` where it then reads in front of the array.
  pub check_last : Stale → List ℕ → ℕ → Daemon Store → Outcome (Daemon Store)
  check_last stale buffer read d =
      let last_packet = read % 1024 in
      let tempbuf = (read / 1024 - 1) * 1024 in
      let unset : Outcome (Daemon Store) = elim stale.pointed [
        | none ↦ fault
        | some bytes ↦ check_left bytes last_packet d
      ] in
      if read / 1024 == 0
      then unset
      else if ltb tempbuf last_packet
      then fault
      else check_left (drop (tempbuf - last_packet) buffer) last_packet d

  -- `remoteisset`, with the datagram that came in.
  pub remote_is_set : Stale → List ℕ → Daemon Store → Outcome (Daemon Store)
  remote_is_set stale datagram d =
      let read = length datagram in
      let buffer = datagram ++ stale.behind in
      check_packets buffer read (read / 1024) 0 d >>= λ d'.
      if read % 1024 == 0 then ok d' else check_last stale buffer read d'
