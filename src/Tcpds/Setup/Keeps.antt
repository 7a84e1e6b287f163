-- ===== src/Tcpds/Setup/Keeps.antt =====
-- What the two operations of the buffer keep, the rounds of tcpds.c keep.
use project.Base.{
  ℕ, zero, suc, ◌+◌, ◌-◌, ◌*◌, ◌/◌, ◌%◌, Bool, Option, none, some, List, [], ◌∷◌, ◌==◌, Bool-cases,
  inl, inr, ltb, length, ◌++◌, drop,
}
use project.Words.{read_le32}
use project.Crc32.{crc32}
use project.TcpApi.{Kernel, Api, unused}
use project.Outcome.{ok, fault, Leaves, bind-Leaves, Leaves-any}
use project.Tcpds.{
  Stale, ServerBuffer, Peer, Daemon, send, host_is_set, store_packet, check_packet, check_packets,
  check_left, check_last, remote_is_set,
}
use project.Tcpds.Setup.{Connection, Arrivals, create_connection, check_read, rounds, main}

module _ (sb : ServerBuffer) (refused : ℕ → Bool) (P : sb.Store → Type 0)
    (adds : (number size : ℕ) (bytes : List ℕ) (s : sb.Store)
      → P s
      → Leaves (λ (o : ℕ × sb.Store). P o.1) (sb.add_data number size bytes s))
    (reads : (size : ℕ) (s : sb.Store)
      → P s
      → Leaves (λ (o : List ℕ × sb.Store). P o.1) (sb.request_data size s)) where
  abbrev Kept : Daemon sb.Store → Type 0
  Kept d = P d.store

  send-Kept :
      (to : Peer) (bytes : List ℕ) (d : Daemon sb.Store)
      → Kept d
      → Leaves Kept (send sb refused to bytes d)
  unfolding send
  send-Kept to bytes d h = elim (Bool-cases (refused d.sends)) [
    | inl failed ↦ rw failed tt
    | inr sent ↦ rw sent h
  ]

  host_is_set-Kept :
      (request : List ℕ) (d : Daemon sb.Store)
      → Kept d
      → Leaves Kept (host_is_set sb refused request d)
  unfolding host_is_set
  host_is_set-Kept request d h =
      bind-Leaves (λ (o : List ℕ × sb.Store). P o.1) Kept
        (sb.request_data (read_le32 request 0) d.store) _ (reads (read_le32 request 0) d.store h)
        (λ o h'. send-Kept _ o.0 (record d { store = o.1 }) h')

  store_packet-Kept :
      (number size : ℕ) (bytes : List ℕ) (d : Daemon sb.Store)
      → Kept d
      → Leaves Kept (store_packet sb refused number size bytes d)
  unfolding store_packet
  store_packet-Kept number size bytes d h =
      bind-Leaves (λ (o : ℕ × sb.Store). P o.1) Kept (sb.add_data number size bytes d.store) _
        (adds number size bytes d.store h)
        (λ o h'. elim (Bool-cases (o.0 == 0)) [
          | inl refused ↦ rw refused h'
          | inr taken ↦ rw taken (send-Kept _ _ (record d { store = o.1 }) h')
        ])

  check_packet-Kept :
      (buffer : List ℕ) (read offset : ℕ) (d : Daemon sb.Store)
      → Kept d
      → Leaves Kept (check_packet sb refused buffer read offset d)
  unfolding check_packet
  check_packet-Kept buffer read offset d h =
      elim (Bool-cases (
        crc32 0x04c11db7 (drop (offset + 24) buffer) (read - 24)
        == read_le32 buffer (offset + 16))) [
          | inl good ↦ rw good (store_packet-Kept _ 1000 _ d h)
          | inr bad ↦ rw bad h
        ]

  check_packets-Kept :
      (buffer : List ℕ) (read left offset : ℕ) (d : Daemon sb.Store)
      → Kept d
      → Leaves Kept (check_packets sb refused buffer read left offset d)
  unfolding check_packets
  check_packets-Kept buffer read zero offset d h = h
  check_packets-Kept buffer read (suc left) offset d h =
      bind-Leaves Kept Kept (check_packet sb refused buffer read offset d) _
        (check_packet-Kept buffer read offset d h)
        (λ d' h'. check_packets-Kept buffer read left (offset + 1024) d' h')

  check_left-Kept :
      (bytes : List ℕ) (last_packet : ℕ) (d : Daemon sb.Store)
      → Kept d
      → Leaves Kept (check_left sb refused bytes last_packet d)
  unfolding check_left
  check_left-Kept bytes last_packet d h =
      elim (Bool-cases (crc32 0x04c11db7 bytes last_packet == read_le32 bytes (last_packet + 16))) [
        | inl good ↦ rw good (store_packet-Kept _ _ _ d h)
        | inr bad ↦ rw bad h
      ]

  unset-Kept :
      (pointed : Option (List ℕ)) (last_packet : ℕ) (d : Daemon sb.Store)
      → Kept d
      → Leaves Kept
          (elim pointed [ none ↦ fault | some bytes ↦ check_left sb refused bytes last_packet d ])
  unset-Kept none last_packet d h = tt
  unset-Kept (some bytes) last_packet d h = check_left-Kept bytes last_packet d h

  check_last-Kept :
      (stale : Stale) (buffer : List ℕ) (read : ℕ) (d : Daemon sb.Store)
      → Kept d
      → Leaves Kept (check_last sb refused stale buffer read d)
  unfolding check_last
  check_last-Kept stale buffer read d h = elim (Bool-cases (read / 1024 == 0)) [
    | inl none_whole ↦ rw none_whole (unset-Kept stale.pointed (read % 1024) d h)
    | inr some_whole ↦ elim (Bool-cases (ltb ((read / 1024 - 1) * 1024) (read % 1024))) [
      | inl in_front ↦ rw (some_whole, in_front) tt
      | inr within ↦ rw (some_whole, within) (check_left-Kept _ _ d h)
    ]
  ]

  remote_is_set-Kept :
      (stale : Stale) (datagram : List ℕ) (d : Daemon sb.Store)
      → Kept d
      → Leaves Kept (remote_is_set sb refused stale datagram d)
  unfolding remote_is_set
  remote_is_set-Kept stale datagram d h =
      bind-Leaves Kept Kept
        (check_packets sb refused (datagram ++ stale.behind) (length datagram)
          (length datagram / 1024) 0 d)
        _ (check_packets-Kept (datagram ++ stale.behind) (length datagram) _ 0 d h)
        (λ d' h'. elim (Bool-cases (length datagram % 1024 == 0)) [
          | inl whole ↦ rw whole h'
          | inr left ↦
              rw left (check_last-Kept stale (datagram ++ stale.behind) (length datagram) d' h')
        ])

  check_read-Kept :
      (i : Arrivals) (d : Daemon sb.Store) → Kept d → Leaves Kept (check_read sb refused i d)
  unfolding check_read
  check_read-Kept i d h =
      bind-Leaves Kept Kept _ _ (asked i.request) (λ d' h'. came i.datagram d' h')
    where
      asked :
          (o : Option (List ℕ))
          → Leaves Kept (elim o [ none ↦ ok d | some request ↦ host_is_set sb refused request d ])
      asked none = h
      asked (some request) = host_is_set-Kept request d h

      came :
          (o : Option (List ℕ)) (d' : Daemon sb.Store)
          → Kept d'
          → Leaves Kept (elim o [
            | none ↦ ok d'
            | some datagram ↦ remote_is_set sb refused i.stale datagram d'
          ])
      came none d' h' = h'
      came (some datagram) d' h' = remote_is_set-Kept i.stale datagram d' h'

  pub rounds-Kept :
      (is : List Arrivals) (d : Daemon sb.Store) → Kept d → Leaves Kept (rounds sb refused is d)
  unfolding rounds
  rounds-Kept [] d h = h
  rounds-Kept (i ∷ is) d h =
      bind-Leaves Kept Kept (check_read sb refused i d) _ (check_read-Kept i d h)
        (λ d' h'. rounds-Kept is d' h')

  pub main-Kept :
      (k : Kernel) (args : ℕ) (ip : List ℕ) (initial : sb.Store) (is : List Arrivals)
      → P initial
      → Leaves Kept (main sb refused k args ip initial is)
  unfolding main
  main-Kept k args ip initial is h = elim (Bool-cases (ltb args 2)) [
    | inl few ↦ rw few tt
    | inr enough ↦ rw enough (
        bind-Leaves (λ (o : Connection × Api). Unit) Kept (create_connection k ip unused) _
          (Leaves-any _) (λ o u. rounds-Kept is _ h))
  ]
