-- ===== src/Sender/Send.antt =====
-- `sendWindow` of cbuffer.c: which datagrams go out, and what it leaves.
use project.Base.{
  ℕ, suc, ◌+◌, ◌≤◌, ◌≡◌, ◌≢◌, refl, sym, ap, ◌∙◌, true, false, some, List, [], ◌∷◌, ◌++◌,
  append_assoc, append-nil, map, arith, set, length, length-append, get_elem?, All, ltb, Bool-cases,
  inl, inr,
}
use project.CBuffer.{PackNode, packet_bytes, request_size, request_data}
use project.CBuffer.Chain.{Chain}
use project.CBuffer.Packets.{
  request_size_found, request_data_found, numbers_below, packet_bytes-ack,
}
use project.TimerClient.{starttimer}
use project.Sender.{
  RttPack, troll, timer, Sender, ok, ◌>>=◌, packet, set_ack, free_slot, System, send, transmit,
  send_packet, send_from, send_window,
}
use project.Sender.Rtt.{Float}
use project.Sender.Slots.{free_count, Taken, take_slot, get_elem?-middle, set_ack-middle}
use project.Sender.Taken.{On, set-On, set-On_new}
use project.Sender.Wire.{mark, unsent_count, wire, Chain-set}

module _ (fl : Float) (sys : System) (never : (k : ℕ) → sys.refused k ≡ false) where
  open fl use {Double}

  -- What a run over the packets `post`, behind `pre`, makes of `s`.
  pub record Sent (pre post : List PackNode) (s s' : Sender Double) : Type 0 where
    pub outbox_grown : s'.outbox ≡ s.outbox ++ wire s.remote s.buffer.cirbuffer post
    pub buffer_marked : s'.buffer ≡ record (s.buffer) { nodes = pre ++ map mark post }
    pub slots_left : free_count s'.packtimes + unsent_count post ≡ free_count s.packtimes
    pub remote_kept : s'.remote ≡ s.remote
    pub slots_kept : (k : ℕ) → On k s.packtimes → On k s'.packtimes
    pub slots_taken : All (λ n. ltb 0 n.ack ≡ false → On n.seqnum s'.packtimes) post

  -- The slot of a packet.
  abbrev entry : PackNode → Sender Double → RttPack
  entry n s = record { bsn = n.seqnum; on = true; timestart = sys.clock s.readings }

  -- The packet on its way: the datagrams, the mark and the slot.
  sent : ℕ → ℕ → PackNode → List ℕ → Sender Double → Sender Double
  sent slot i n bytes s = record s {
    readings = s.readings + 1;
    sends = s.sends + 1 + 1;
    outbox =
        s.outbox
        ++ ((troll, packet s.remote n.seqnum bytes n.size) ∷ [])
        ++ ((timer, starttimer 1000 n.seqnum) ∷ []);
    buffer = record (s.buffer) { nodes = set_ack 1 i s.buffer.nodes };
    packtimes =
        set s.packtimes slot
          (record { bsn = n.seqnum; on = true; timestart = sys.clock s.readings });
  }

  transmit_lem :
      (slot i : ℕ) (n : PackNode) (bytes : List ℕ) (s : Sender Double)
      → transmit fl sys slot i n.seqnum n.size bytes s ≡ ok (sent slot i n bytes s)
  unfolding transmit send sent
  transmit_lem slot i n bytes s = rw (never s.sends, never (s.sends + 1))

  send_packet_lem :
      (pre post : List PackNode) (n : PackNode) (s : Sender Double) (slot : ℕ)
      → s.buffer.nodes ≡ pre ++ (n ∷ post)
      → All (λ m. m.seqnum ≢ n.seqnum) pre
      → free_slot s.packtimes ≡ some slot
      → send_packet fl sys (length pre) n s
        ≡ transmit fl sys slot
            (length pre)
            n.seqnum
            n.size
            (packet_bytes s.buffer.cirbuffer n)
            (record s {
              buffer = record (s.buffer) { nodes = pre ++ (record n { ack = 1 } ∷ post) };
            })
  unfolding send_packet
  send_packet_lem pre post n s slot at fresh found = rw (size, bytes, found)
    where
      size : request_size n.seqnum s.buffer.nodes ≡ (n.size, pre ++ (record n { ack = 1 } ∷ post))
      size = ap (request_size n.seqnum) at ∙ request_size_found pre post n fresh

      bytes :
          request_data s.buffer.cirbuffer n.seqnum (pre ++ (record n { ack = 1 } ∷ post))
          ≡ (some (packet_bytes s.buffer.cirbuffer n), pre ++ (record n { ack = 1 } ∷ post))
      bytes =
          request_data_found s.buffer.cirbuffer pre post (record n { ack = 1 }) fresh
          ∙ ap (λ (xs : List ℕ). (some xs, pre ++ (record n { ack = 1 } ∷ post)))
              (packet_bytes-ack s.buffer.cirbuffer n 1)

  -- The state after one packet, its node's place given by the packets in front.
  pub after_one : ℕ → (pre post : List PackNode) → PackNode → Sender Double → Sender Double
  after_one slot pre post n s =
      sent slot (length pre) n (packet_bytes s.buffer.cirbuffer n)
        (record s { buffer = record (s.buffer) { nodes = pre ++ (record n { ack = 1 } ∷ post) } })

  pub one_nodes :
      (slot : ℕ) (pre post : List PackNode) (n : PackNode) (s : Sender Double)
      → (after_one slot pre post n s).buffer.nodes ≡ (pre ++ (record n { ack = 1 } ∷ [])) ++ post
  unfolding after_one sent
  one_nodes slot pre post n s =
      set_ack-middle 1 pre post (record n { ack = 1 })
      ∙ sym (append_assoc pre (record n { ack = 1 } ∷ []) post)

  -- A run over the rest of the list, put behind one packet.
  Sent-cons :
      (slot : ℕ) (pre post : List PackNode) (n : PackNode) (s s' : Sender Double)
      → ltb 0 n.ack ≡ false
      → free_slot s.packtimes ≡ some slot
      → free_count (after_one slot pre post n s).packtimes + 1 ≡ free_count s.packtimes
      → Sent (pre ++ (record n { ack = 1 } ∷ [])) post (after_one slot pre post n s) s'
      → Sent pre (n ∷ post) s s'
  unfolding after_one sent
  Sent-cons slot pre post n s s' new found left v = record {
    outbox_grown = v.outbox_grown ∙ rw new (simp append_assoc refl);
    buffer_marked =
        v.buffer_marked
        ∙ ap (λ (t : List PackNode). record (s.buffer) { nodes = t })
            (rw new (append_assoc pre (record n { ack = 1 } ∷ []) (map mark post)));
    slots_left = rw new (omega (arith, v.slots_left, left));
    remote_kept = v.remote_kept;
    slots_kept = λ k o. v.slots_kept k (set-On s.packtimes slot (entry n s) found refl k o);
    slots_taken = (
      λ e. v.slots_kept n.seqnum (set-On_new s.packtimes slot (entry n s) found refl),
      v.slots_taken,
    );
  }

  Sent-skip :
      (pre post : List PackNode) (n : PackNode) (s s' : Sender Double)
      → ltb 0 n.ack ≡ true
      → Sent (pre ++ (n ∷ [])) post s s'
      → Sent pre (n ∷ post) s s'
  Sent-skip pre post n s s' old v = record {
    outbox_grown = v.outbox_grown ∙ rw old;
    buffer_marked =
        v.buffer_marked
        ∙ ap (λ (t : List PackNode). record (s.buffer) { nodes = t })
            (rw old (append_assoc pre (n ∷ []) (map mark post)));
    slots_left = rw old (omega (arith, v.slots_left));
    remote_kept = v.remote_kept;
    slots_kept = v.slots_kept;
    slots_taken = (λ e. cc, v.slots_taken);
  }

  pub send_from_skip :
      (left i : ℕ) (n : PackNode) (s : Sender Double)
      → get_elem? s.buffer.nodes i ≡ some n
      → ltb 0 n.ack ≡ true
      → send_from fl sys (suc left) i s ≡ send_from fl sys left (i + 1) s
  unfolding send_from
  send_from_skip left i n s find old = rw (find, send_from) (rw (old, send_from))

  pub send_from_send :
      (left i : ℕ) (n : PackNode) (s s' : Sender Double)
      → get_elem? s.buffer.nodes i ≡ some n
      → ltb 0 n.ack ≡ false
      → send_packet fl sys i n s ≡ ok s'
      → send_from fl sys (suc left) i s ≡ send_from fl sys left (i + 1) s'
  unfolding send_from
  send_from_send left i n s s' find new step =
      rw (find, send_from) (rw (new, send_from) (rw (step, ◌>>=◌)))

  pub one_step :
      (pre post : List PackNode) (n : PackNode) (s : Sender Double) (slot : ℕ)
      → s.buffer.nodes ≡ pre ++ (n ∷ post)
      → All (λ m. m.seqnum ≢ n.seqnum) pre
      → free_slot s.packtimes ≡ some slot
      → send_packet fl sys (length pre) n s ≡ ok (after_one slot pre post n s)
  unfolding after_one
  one_step pre post n s slot at fresh found =
      send_packet_lem pre post n s slot at fresh found
      ∙ transmit_lem slot (length pre) n (packet_bytes s.buffer.cirbuffer n) _

  pub one_slot :
      (pre post : List PackNode) (n : PackNode) (s : Sender Double) (t : Taken s.packtimes)
      → free_count (after_one t.slot pre post n s).packtimes + 1 ≡ free_count s.packtimes
  unfolding after_one sent
  one_slot pre post n s t = t.left _ refl

  pub one-Chain :
      (slot q : ℕ) (pre post : List PackNode) (n : PackNode) (s : Sender Double)
      → Chain s.buffer.dstart q (pre ++ (n ∷ post))
      → Chain
          (after_one slot pre post n s).buffer.dstart
          q
          ((pre ++ (record n { ack = 1 } ∷ [])) ++ post)
  unfolding after_one sent
  one-Chain slot q pre post n s c =
      rw (append_assoc pre (record n { ack = 1 } ∷ []) post)
        (Chain-set s.buffer.dstart q 1 pre post n c)

  -- The loop from any place on, if there are slots enough.
  send_from-Sent :
      (pre post : List PackNode) (s : Sender Double) (q : ℕ)
      → s.buffer.nodes ≡ pre ++ post
      → Chain s.buffer.dstart q (pre ++ post)
      → unsent_count post ≤ free_count s.packtimes
      → (s' : Sender Double) × (send_from fl sys (length post) (length pre) s ≡ ok s')
        × Sent pre post s s'
  send_from-Sent pre [] s q at c room = (
    s,
    unfold send_from in refl,
    record {
      outbox_grown = sym (append-nil s.outbox);
      buffer_marked = ap (λ (t : List PackNode). record (s.buffer) { nodes = t }) at;
      slots_left = omega arith;
      remote_kept = refl;
      slots_kept = λ k o. o;
      slots_taken = tt;
    },
  )
  send_from-Sent pre (n ∷ post) s q at c room =
      let find =
        ap (λ (t : List PackNode). get_elem? t (length pre)) at ∙ get_elem?-middle pre post n in
      elim (Bool-cases (ltb 0 n.ack)) [
        | inl old ↦
            let e = append_assoc pre (n ∷ []) post in
            let l : length pre + 1 ≡ length (pre ++ (n ∷ [])) =
              omega (arith, length-append pre (n ∷ [])) in
            let (s', run, v) =
              send_from-Sent (pre ++ (n ∷ [])) post s q (at ∙ sym e) (rw e c) (ground arith) in
            (
              s',
              send_from_skip (length post) (length pre) n s find old ∙ rw l run,
              Sent-skip pre post n s s' old v,
            )
        | inr new ↦
            let t = take_slot s.packtimes (ground arith) in
            let fresh = (numbers_below s.buffer.dstart q pre post n c).1 in
            let step = one_step pre post n s t.slot at fresh t.found in
            let left = one_slot pre post n s t in
            let sent_n : PackNode = record n { ack = 1 } in
            let l : length pre + 1 ≡ length (pre ++ (sent_n ∷ [])) =
              omega (arith, length-append pre (sent_n ∷ [])) in
            let (s', run, v) =
              send_from-Sent (pre ++ (sent_n ∷ [])) post (after_one t.slot pre post n s) q
                (one_nodes t.slot pre post n s) (one-Chain t.slot q pre post n s c)
                (ground arith) in
            (
              s',
              send_from_send (length post) (length pre) n s _ find new step ∙ rw l run,
              Sent-cons t.slot pre post n s s' new t.found left v,
            )
      ]

  -- If no send fails, the packets of the list are consecutive, and there is a slot for each
  -- packet that is to be sent, `sendWindow` sends exactly these, in order, each followed by the
  -- request of its timer, takes as many slots, marks the packets, and changes nothing else in the
  -- buffer.
  pub send_window-Sent :
      (s : Sender Double) (q : ℕ)
      → Chain s.buffer.dstart q s.buffer.nodes
      → unsent_count s.buffer.nodes ≤ free_count s.packtimes
      → (s' : Sender Double) × (send_window fl sys s ≡ ok s')
        × (s'.outbox ≡ s.outbox ++ wire s.remote s.buffer.cirbuffer s.buffer.nodes)
        × (s'.buffer ≡ record (s.buffer) { nodes = map mark s.buffer.nodes })
        × (free_count s'.packtimes + unsent_count s.buffer.nodes ≡ free_count s.packtimes)
  unfolding send_window
  send_window-Sent s q c room =
      let (s', run, v) = send_from-Sent [] s.buffer.nodes s q refl c room in
      (s', run, v.outbox_grown, v.buffer_marked, v.slots_left)

  -- Every packet that was to be sent then stands in a slot.
  pub send_window-On :
      (s : Sender Double) (q : ℕ)
      → Chain s.buffer.dstart q s.buffer.nodes
      → unsent_count s.buffer.nodes ≤ free_count s.packtimes
      → (s' : Sender Double) × (send_window fl sys s ≡ ok s')
        × (s'.outbox ≡ s.outbox ++ wire s.remote s.buffer.cirbuffer s.buffer.nodes)
        × (s'.buffer ≡ record (s.buffer) { nodes = map mark s.buffer.nodes })
        × (s'.remote ≡ s.remote)
        × All (λ n. ltb 0 n.ack ≡ false → On n.seqnum s'.packtimes) s.buffer.nodes
  unfolding send_window
  send_window-On s q c room =
      let (s', run, v) = send_from-Sent [] s.buffer.nodes s q refl c room in
      (s', run, v.outbox_grown, v.buffer_marked, v.remote_kept, v.slots_taken)
