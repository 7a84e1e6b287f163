-- ===== src/Sender/Keeps.antt =====
-- What cbuffer.c holds for the network, when packets are sent, acknowledged or time out.
use project.Base.{
  ℕ, zero, suc, ◌+◌, ◌≡◌, sym, ◌∙◌, List, Bool, Option, none, some, true, false, ltb, length,
  get_elem?, Bool-cases, inl, inr, map, subst,
}
use project.CBuffer.{PackNode, request_size, request_data, check_window}
use project.Sender.{
  Sender, Outcome, ok, ◌>>=◌, of_option, Address, troll, timer, packet, RttPack, set_ack,
  acknowledge, expire_node, System, free_slot, slot_of, send, transmit, send_packet, send_from,
  send_window, mark_acked, settle, recv_ack, timer_expire,
}
use project.TimerClient.{starttimer}
use project.Sender.Rtt.{Float}
use project.Sender.Restamp.{
  blank-expire, blank-request_size, blank-request_data, blank-set_ack, Restamps,
  acknowledge-Restamps, HeadWaits-expire, HeadWaits-request_size, HeadWaits-request_data,
  HeadWaits-set_ack,
}
use project.Outcome.{Leaves, bind-Leaves, of_option-Leaves}
use project.Sender.Held.{Holds, Holds-nodes, Holds-acknowledged}

module _ (fl : Float) (sys : System) (given : List ℕ) where
  open fl use {Double}

  abbrev pub Kept : Sender Double → Type 0
  Kept s = Holds given s.buffer

  pub send-buffer :
      (to : Address) (bytes : List ℕ) (s : Sender Double)
      → (send fl sys to bytes s).1.buffer ≡ s.buffer
  unfolding send
  send-buffer to bytes s = elim (Bool-cases (sys.refused s.sends)) [
    | inl failed ↦ rw failed
    | inr sent ↦ rw sent
  ]

  transmit-Kept :
      (slot i bsn size : ℕ) (bytes : List ℕ) (s : Sender Double)
      → Kept s
      → Leaves Kept (transmit fl sys slot i bsn size bytes s)
  unfolding transmit
  transmit-Kept slot i bsn size bytes s h = elim (Bool-cases first.0) [
    | inl failed ↦ rw failed tt
    | inr sent ↦ rw sent (
        Holds-nodes given second.1.buffer (set_ack 1 i second.1.buffer.nodes)
          (blank-set_ack 1 i second.1.buffer.nodes)
          (HeadWaits-set_ack i second.1.buffer.nodes kept.valid.waits) kept)
  ]
    where
      first : Bool × Sender Double
      first =
          send fl sys troll (packet s.remote bsn bytes size)
            (record s { readings = s.readings + 1 })

      second : Bool × Sender Double
      second = send fl sys timer (starttimer 1000 bsn) first.1

      kept : Kept second.1
      kept =
          subst (Holds given)
            (sym (
              send-buffer timer _ first.1
              ∙ send-buffer troll _ (record s { readings = s.readings + 1 })))
            h

  send_packet-Kept :
      (i : ℕ) (n : PackNode) (s : Sender Double) → Kept s → Leaves Kept (send_packet fl sys i n s)
  unfolding send_packet
  send_packet-Kept i n s h =
      bind-Leaves (λ (a : List ℕ). Unit) Kept (of_option found) _ (of_option-Leaves found)
        (λ bytes u.
          bind-Leaves (λ (a : ℕ). Unit) Kept (of_option (free_slot s.packtimes)) _
            (of_option-Leaves (free_slot s.packtimes))
            (λ slot v.
              transmit-Kept slot i n.seqnum _ bytes
                (record s { buffer = record (s.buffer) { nodes = nodes2 } })
                (Holds-nodes given s.buffer nodes2
                  (blank-request_data s.buffer.cirbuffer n.seqnum nodes1
                    ∙ blank-request_size n.seqnum s.buffer.nodes)
                  (HeadWaits-request_data s.buffer.cirbuffer n.seqnum nodes1
                    (HeadWaits-request_size n.seqnum s.buffer.nodes h.valid.waits))
                  h)))
    where
      nodes1 : List PackNode
      nodes1 = (request_size n.seqnum s.buffer.nodes).1

      found : Option (List ℕ)
      found = (request_data s.buffer.cirbuffer n.seqnum nodes1).0

      nodes2 : List PackNode
      nodes2 = (request_data s.buffer.cirbuffer n.seqnum nodes1).1

  -- A node of the window, if `rest` goes on with the others.
  send_node-Kept :
      (i : ℕ) (rest : Sender Double → Outcome (Sender Double)) (s : Sender Double)
      → ((s' : Sender Double) → Kept s' → Leaves Kept (rest s'))
      → Kept s
      → (o : Option PackNode)
      → Leaves Kept (elim o [
        | none ↦ ok s
        | some n ↦ elim (ltb 0 n.ack) [
          | true ↦ rest s
          | false ↦ send_packet fl sys i n s >>= λ s'. rest s'
        ]
      ])
  send_node-Kept i rest s keep h none = h
  send_node-Kept i rest s keep h (some n) = elim (Bool-cases (ltb 0 n.ack)) [
    | inl old ↦ rw old (keep s h)
    | inr new ↦
        rw new
          (bind-Leaves Kept Kept (send_packet fl sys i n s) rest (send_packet-Kept i n s h) keep)
  ]

  send_from-Kept :
      (left i : ℕ) (s : Sender Double) → Kept s → Leaves Kept (send_from fl sys left i s)
  unfolding send_from
  send_from-Kept zero i s h = h
  send_from-Kept (suc left) i s h =
      send_node-Kept i (send_from fl sys left (i + 1)) s (send_from-Kept left (i + 1)) h
        (get_elem? s.buffer.nodes i)

  pub send_window-Kept : (s : Sender Double) → Kept s → Leaves Kept (send_window fl sys s)
  unfolding send_window
  send_window-Kept s h = send_from-Kept (length s.buffer.nodes) 0 s h

  mark_acked-Kept : (num : ℕ) (s : Sender Double) → Kept s → Kept (mark_acked fl sys num s).1
  unfolding mark_acked
  mark_acked-Kept num s h =
      by_found (acknowledge num s.buffer.nodes) (acknowledge-Restamps num s.buffer.nodes)
    where
      by_found :
          (o : Option (List PackNode))
          → Restamps s.buffer.nodes o
          → let r : ℕ × Sender Double = elim o [
            | none ↦ (0, s)
            | some nodes' ↦
                (1, record s { buffer = check_window (record (s.buffer) { nodes = nodes' }) })
          ] in
            Kept r.1
      by_found none e = h
      by_found (some ns) e = Holds-acknowledged given s.buffer ns e h

  settle-Kept :
      (num slot : ℕ) (p : RttPack) (s : Sender Double)
      → Kept s
      → Kept (settle fl sys num slot p s).1
  unfolding settle
  settle-Kept num slot p s h =
      mark_acked-Kept num _ (subst (Holds given) (sym (send-buffer timer _ _)) h)

  pub recv_ack-Kept :
      (num : ℕ) (s : Sender Double)
      → Kept s
      → Leaves (λ (r : ℕ × Sender Double). Kept r.1) (recv_ack fl sys num s)
  unfolding recv_ack
  recv_ack-Kept num s h =
      bind-Leaves (λ (a : ℕ). Unit) _ (of_option (slot_of num s.packtimes)) _ (of_option-Leaves _)
        (λ slot u.
          bind-Leaves (λ (a : RttPack). Unit) _ (of_option (get_elem? s.packtimes slot)) _
            (of_option-Leaves _) (λ p v. settle-Kept num slot p s h))

  pub timer_expire-Kept : (bsn : ℕ) (s : Sender Double) → Kept s → Kept (timer_expire fl sys bsn s)
  unfolding timer_expire
  timer_expire-Kept bsn s h =
      Holds-nodes given s.buffer (map (expire_node bsn) s.buffer.nodes)
        (blank-expire bsn s.buffer.nodes) (HeadWaits-expire bsn s.buffer.nodes h.valid.waits) h
