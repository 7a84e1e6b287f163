-- ===== src/Sender/Expire.antt =====
-- `timerExpire` of cbuffer.c: what the end of a timer does to the packets and the slots.
use project.Base.{
  ℕ, ◌+◌, ◌<◌, ◌≡◌, ◌≢◌, refl, sym, ap, ◌∙◌, subst, inl, inr, false, List, [], ◌∷◌, ◌++◌, map,
  arith, All, ltb, Bool-cases,
}
use project.CBuffer.{PackNode, packet_bytes}
use project.CBuffer.Chain.{Chain}
use project.CBuffer.Packets.{numbers_below, packet_bytes-ack}
use project.TimerClient.{starttimer}
use project.Sender.{
  RttPack, Sender, ok, troll, timer, packet, expire_node, expire_slot, System, send_window,
  timer_expire,
}
use project.Sender.Rtt.{Float}
use project.Sender.Slots.{free_count}
use project.Sender.Wire.{mark, unsent_count, wire, Chain-set}
use project.Sender.Taken.{On}
use project.Sender.Send.{send_window-On}

-- `timerExpire` touches no other packet.
expire_others :
    (num : ℕ) (ns : List PackNode) → All (λ m. m.seqnum ≢ num) ns → map (expire_node num) ns ≡ ns
unfolding expire_node
expire_others num [] d = refl
expire_others num (m ∷ ns) d = ground (arith, expire_others num ns d.1)

expire_middle :
    (pre post : List PackNode) (n : PackNode)
    → All (λ m. m.seqnum ≢ n.seqnum) pre
    → All (λ m. m.seqnum ≢ n.seqnum) post
    → map (expire_node n.seqnum) (pre ++ (n ∷ post)) ≡ pre ++ (record n { ack = 0 } ∷ post)
unfolding expire_node
expire_middle [] post n d e = ground (arith, expire_others n.seqnum post e)
expire_middle (m ∷ pre) post n d e = ground (arith, expire_middle pre post n d.1 e)

-- Packets that were sent already send nothing and stay as they are.
unsent_none :
    (remote buf : List ℕ) (ns : List PackNode)
    → unsent_count ns ≡ 0
    → (wire remote buf ns ≡ []) × (map mark ns ≡ ns)
unsent_none remote buf [] e = (refl, refl)
unsent_none remote buf (m ∷ ns) e = elim (Bool-cases (ltb 0 m.ack)) [
  | inl old ↦
      let ih = unsent_none remote buf ns (ground arith) in
      (rw old ih.0, rw old (ap (λ (t : List PackNode). m ∷ t) ih.1))
  | inr new ↦ absurd (ground arith)
]

unsent_count-append :
    (xs ys : List PackNode) → unsent_count (xs ++ ys) ≡ unsent_count xs + unsent_count ys
unsent_count-append [] ys = omega arith
unsent_count-append (x ∷ xs) ys = omega (arith, unsent_count-append xs ys)

wire_behind :
    (remote buf : List ℕ) (pre rest : List PackNode)
    → unsent_count pre ≡ 0
    → (wire remote buf (pre ++ rest) ≡ wire remote buf rest)
      × (map mark (pre ++ rest) ≡ pre ++ map mark rest)
wire_behind remote buf [] rest e = (refl, refl)
wire_behind remote buf (m ∷ pre) rest e = elim (Bool-cases (ltb 0 m.ack)) [
  | inl old ↦
      let ih = wire_behind remote buf pre rest (ground arith) in
      (rw old ih.0, rw old (ap (λ (t : List PackNode). m ∷ t) ih.1))
  | inr new ↦ absurd (ground arith)
]

-- The slot that `timerExpire` gives back.
expire_slot-free :
    (num : ℕ) (before after : List RttPack) (p : RttPack)
    → p.bsn ≡ num
    → 0 < free_count (map (expire_slot num) (before ++ (p ∷ after)))
unfolding expire_slot
expire_slot-free num [] after p e = ground arith
expire_slot-free num (o ∷ before) after p e = ground (arith, expire_slot-free num before after p e)

-- The numbers behind a packet are larger than its own.
pub numbers_above :
    (s q num : ℕ) (ns : List PackNode) → Chain s q ns → num < q → All (λ m. m.seqnum ≢ num) ns
numbers_above s q num [] c h = tt
numbers_above s q num (m ∷ ns) c h =
    (λ e. omega (arith, c.3), numbers_above (s + m.size) (q + 1) num ns c.4 (omega arith))

numbers_behind :
    (s q : ℕ) (pre post : List PackNode) (n : PackNode)
    → Chain s q (pre ++ (n ∷ post))
    → All (λ m. m.seqnum ≢ n.seqnum) post
numbers_behind s q [] post n c =
    numbers_above (s + n.size) (q + 1) n.seqnum post c.4 (omega (arith, c.3))
numbers_behind s q (m ∷ pre) post n c = numbers_behind (s + m.size) (q + 1) pre post n c.4

-- A list of sent packets, in which one is put back.
revived :
    (remote buf : List ℕ) (pre post : List PackNode) (n : PackNode)
    → n.ack ≡ 1
    → unsent_count (pre ++ (n ∷ post)) ≡ 0
    → let ns = pre ++ (record n { ack = 0 } ∷ post) in
      (wire remote buf ns
        ≡ (troll, packet remote n.seqnum (packet_bytes buf n) n.size)
          ∷ ((timer, starttimer 1000 n.seqnum) ∷ []))
      × (map mark ns ≡ pre ++ (n ∷ post))
      × (unsent_count ns ≡ 1)
revived remote buf pre post n one idle =
    let c = unsent_count-append pre (n ∷ post) in
    let c0 = unsent_count-append pre (record n { ack = 0 } ∷ post) in
    let front = wire_behind remote buf pre (record n { ack = 0 } ∷ post) (omega (arith, c)) in
    let behind = unsent_none remote buf post (ground (arith, c, one)) in
    (
      front.0 ∙ rw (behind.0, packet_bytes-ack buf n 0),
      front.1 ∙ rw (behind.1, sym one),
      ground (arith, c0, c),
    )

All-middle :
    (P : PackNode → Type 0) (pre post : List PackNode) (n : PackNode)
    → All P (pre ++ (n ∷ post))
    → P n
All-middle P [] post n all = all.0
All-middle P (m ∷ pre) post n all = All-middle P pre post n all.1

module _ (fl : Float) (sys : System) where
  open fl use {Double}

  -- The packet goes out again and stands in a slot again.
  pub timer_expire-On :
      (s : Sender Double) (q : ℕ) (pre post : List PackNode) (n : PackNode)
      (before after : List RttPack) (p : RttPack)
      → ((k : ℕ) → sys.refused k ≡ false)
      → Chain s.buffer.dstart q s.buffer.nodes
      → s.buffer.nodes ≡ pre ++ (n ∷ post)
      → n.ack ≡ 1
      → unsent_count s.buffer.nodes ≡ 0
      → s.packtimes ≡ before ++ (p ∷ after)
      → p.bsn ≡ n.seqnum
      → (s' : Sender Double) × (send_window fl sys (timer_expire fl sys n.seqnum s) ≡ ok s')
        × (s'.outbox
            ≡ s.outbox
              ++ ((troll, packet s.remote n.seqnum (packet_bytes s.buffer.cirbuffer n) n.size)
                  ∷ ((timer, starttimer 1000 n.seqnum) ∷ [])))
        × (s'.buffer ≡ s.buffer)
        × On n.seqnum s'.packtimes
  unfolding timer_expire
  timer_expire-On s q pre post n before after p never chain at one idle slots is =
      let c : Chain s.buffer.dstart q (pre ++ (n ∷ post)) = rw (sym at) chain in
      let expired : map (expire_node n.seqnum) s.buffer.nodes
          ≡ pre ++ (record n { ack = 0 } ∷ post) =
        ap (map (expire_node n.seqnum)) at
        ∙ expire_middle pre post n (numbers_below s.buffer.dstart q pre post n c).1
            (numbers_behind s.buffer.dstart q pre post n c) in
      let (sent, remarked, count) =
        revived s.remote s.buffer.cirbuffer pre post n one (rw (sym at) idle) in
      let free : 0 < free_count (map (expire_slot n.seqnum) s.packtimes) =
        rw slots (expire_slot-free n.seqnum before after p is) in
      let (s', run, out, buffer', _, slots') =
        send_window-On fl sys never (timer_expire fl sys n.seqnum s) q
          (rw expired (Chain-set s.buffer.dstart q 0 pre post n c)) (rw (expired, count) free) in
      (
        s',
        run,
        out ∙ rw (expired, sent),
        buffer'
            ∙ ap (λ (t : List PackNode). record (s.buffer) { nodes = t })
                (rw (expired, remarked) (sym at)),
        All-middle (λ m. ltb 0 m.ack ≡ false → On m.seqnum s'.packtimes) pre post
            (record n { ack = 0 })
            (subst
              (λ (ns : List PackNode). All (λ m. ltb 0 m.ack ≡ false → On m.seqnum s'.packtimes) ns)
              expired slots')
            refl,
      )

  -- If no send fails and the packets are consecutive, then when the timer of a packet that is
  -- under way and stands in a slot ends, and nothing else is to be sent, `timerExpire` and
  -- `sendWindow` send exactly that packet again, followed by the request of a new timer, and
  -- leave the buffer as it was.
  pub timer_expire_resends :
      (s : Sender Double) (q : ℕ) (pre post : List PackNode) (n : PackNode)
      (before after : List RttPack) (p : RttPack)
      → ((k : ℕ) → sys.refused k ≡ false)
      → Chain s.buffer.dstart q s.buffer.nodes
      → s.buffer.nodes ≡ pre ++ (n ∷ post)
      → n.ack ≡ 1
      → unsent_count s.buffer.nodes ≡ 0
      → s.packtimes ≡ before ++ (p ∷ after)
      → p.bsn ≡ n.seqnum
      → (s' : Sender Double) × (send_window fl sys (timer_expire fl sys n.seqnum s) ≡ ok s')
        × (s'.outbox
            ≡ s.outbox
              ++ ((troll, packet s.remote n.seqnum (packet_bytes s.buffer.cirbuffer n) n.size)
                  ∷ ((timer, starttimer 1000 n.seqnum) ∷ [])))
        × (s'.buffer ≡ s.buffer)
  timer_expire_resends s q pre post n before after p never chain at one idle slots is =
      let (s', run, out, same, _) =
        timer_expire-On s q pre post n before after p never chain at one idle slots is in
      (s', run, out, same)
