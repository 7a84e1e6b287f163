-- ===== src/Sender/Ack.antt =====
-- `recvACK` of cbuffer.c: what an acknowledgement does to the buffer and the slots.
use project.Base.{
  ℕ, ◌+◌, ◌-◌, ◌<◌, ◌≡◌, ◌≢◌, ◌⊎◌, refl, sym, ap, ◌∙◌, inr, false, none, some, List, [], ◌∷◌, ◌++◌,
  arith, length, length-append, get_elem?, drop, All,
}
use project.CBuffer.{Buffer, PackNode, check_window}
use project.CBuffer.Space.{used, used_eq}
use project.CBuffer.Ring.{contents}
use project.CBuffer.Chain.{Chain, total, total-append}
use project.CBuffer.Shorten.{freed}
use project.CBuffer.Invariant.{IsSound, IsValid, check_window-IsValid}
use project.CBuffer.Add.{contents-check_window}
use project.CBuffer.Packets.{numbers_below}
use project.TimerClient.{canceltimer}
use project.Sender.{
  RttPack, Sender, ok, timer, slot_of, switch_off, acknowledge, System, send, mark_acked, settle,
  recv_ack,
}
use project.Sender.Rtt.{Float, elapsed, time_comps}
use project.Sender.Slots.{get_elem?-middle}
use project.Sender.Wire.{Chain-set}

-- The node marked as acknowledged, at its place.
abbrev pub acked : (pre post : List PackNode) → PackNode → List PackNode
acked pre post n = pre ++ (record n { ack = 2 } ∷ post)

acknowledge_found :
    (pre post : List PackNode) (n : PackNode)
    → All (λ m. m.seqnum ≢ n.seqnum) pre
    → acknowledge n.seqnum (pre ++ (n ∷ post)) ≡ some (acked pre post n)
unfolding acknowledge
acknowledge_found [] post n d = ground arith
acknowledge_found (m ∷ pre) post n d = ground (arith, acknowledge_found pre post n d.1)

acknowledge-none :
    (num : ℕ) (ns : List PackNode) → All (λ m. m.seqnum ≢ num) ns → acknowledge num ns ≡ none
unfolding acknowledge
acknowledge-none num [] d = refl
acknowledge-none num (m ∷ ns) d = ground (arith, acknowledge-none num ns d.1)

-- The first slot of the number.
slot_of_found :
    (before after : List RttPack) (p : RttPack)
    → All (λ o. o.bsn ≢ p.bsn) before
    → slot_of p.bsn (before ++ (p ∷ after)) ≡ some (length before)
unfolding slot_of
slot_of_found [] after p d = ground arith
slot_of_found (o ∷ before) after p d = ground (arith, slot_of_found before after p d.1)

switch_off-middle :
    (before after : List RttPack) (p : RttPack)
    → switch_off (length before) (before ++ (p ∷ after))
      ≡ before ++ (record p { on = false } ∷ after)
unfolding switch_off
switch_off-middle [] after p = refl
switch_off-middle (o ∷ before) after p =
    ap (λ (t : List RttPack). o ∷ t) (switch_off-middle before after p)

acked-IsSound :
    (b : Buffer) (pre post : List PackNode) (n : PackNode)
    → IsSound b
    → b.nodes ≡ pre ++ (n ∷ post)
    → IsSound (record b { nodes = acked pre post n })
acked-IsSound b pre post n v at = record {
  range = record { start_in = v.range.start_in; end_in = v.range.end_in };
  whole = v.whole;
  numbered = rw count v.numbered;
  chain = rw count (Chain-set b.dstart _ 2 pre post n (rw (sym at) v.chain));
  in_window = rw bytes v.in_window;
  held = rw (bytes, used_eq b (record b { nodes = acked pre post n }) refl refl refl) v.held;
}
  where
    count : length (acked pre post n) ≡ length b.nodes
    count = omega (
      arith,
      length-append pre (n ∷ post),
      length-append pre (record n { ack = 2 } ∷ post),
      ap length at,
    )

    bytes : total (acked pre post n) ≡ total b.nodes
    bytes = omega (
      arith,
      total-append pre (n ∷ post),
      total-append pre (record n { ack = 2 } ∷ post),
      ap total at,
    )

-- Where the packets freed are not all that is held, or the data end before the array does,
-- `acked` and `checkWindow` keep the buffer valid and drop the freed bytes.
checked :
    (b : Buffer) (pre post : List PackNode) (n : PackNode)
    → IsValid b
    → b.nodes ≡ pre ++ (n ∷ post)
    → (freed (acked pre post n) < used b) ⊎ (b.dend < 64000)
    → let c = check_window (record b { nodes = acked pre post n }) in
      (contents c ≡ drop (freed (acked pre post n)) (contents b)) × IsValid c
checked b pre post n v at h =
    let b' = record b { nodes = acked pre post n } in
    let sound = acked-IsSound b pre post n v.sound at in
    let u : used b' ≡ used b = used_eq b b' refl refl refl in
    (
      contents-check_window b' sound (inr (rw u h)) ∙ ap (drop (freed (acked pre post n))) (same u),
      check_window-IsValid b' sound,
    )
  where
    same :
        used (record b { nodes = acked pre post n }) ≡ used b
        → contents (record b { nodes = acked pre post n }) ≡ contents b
    same u = unfold contents in rw u

module _ (fl : Float) (sys : System) where
  open fl use {Double}

  -- The state after an acknowledgement, of the number at `slot` and with the nodes marked.
  after_ack : ℕ → ℕ → RttPack → List PackNode → Sender Double → Sender Double
  after_ack num slot p nodes' s = record s {
    readings = s.readings + 1;
    rtt = time_comps fl s.rtt (elapsed fl p.timestart (sys.clock s.readings));
    packtimes = switch_off slot s.packtimes;
    sends = s.sends + 1;
    outbox = s.outbox ++ ((timer, canceltimer (sys.past s.sends) num) ∷ []);
    buffer = check_window (record (s.buffer) { nodes = nodes' });
  }

  -- The state behind `canceltimer`.
  after_cancel : ℕ → ℕ → RttPack → Sender Double → Sender Double
  after_cancel num slot p s = record s {
    readings = s.readings + 1;
    rtt = time_comps fl s.rtt (elapsed fl p.timestart (sys.clock s.readings));
    packtimes = switch_off slot s.packtimes;
    sends = s.sends + 1;
    outbox = s.outbox ++ ((timer, canceltimer (sys.past s.sends) num) ∷ []);
  }

  settle_cancel :
      (num slot : ℕ) (p : RttPack) (s : Sender Double)
      → sys.refused s.sends ≡ false
      → settle fl sys num slot p s ≡ mark_acked fl sys num (after_cancel num slot p s)
  unfolding settle send after_cancel
  settle_cancel num slot p s never = rw never

  settle_found :
      (num slot : ℕ) (p : RttPack) (nodes' : List PackNode) (s : Sender Double)
      → sys.refused s.sends ≡ false
      → acknowledge num s.buffer.nodes ≡ some nodes'
      → settle fl sys num slot p s ≡ (1, after_ack num slot p nodes' s)
  unfolding mark_acked after_ack after_cancel
  settle_found num slot p nodes' s never a = settle_cancel num slot p s never ∙ rw (a, mark_acked)

  -- If no send fails and the buffer is valid, an acknowledgement for a packet of the window whose
  -- number stands in a slot returns 1, asks the timer process to cancel, frees the slot, drops
  -- from what is held the bytes of the packets acknowledged without a gap, and leaves a valid
  -- buffer, unless all that is held is then acknowledged and ends at the very end of the array.
  pub recv_ack_frees :
      (s : Sender Double) (pre post : List PackNode) (n : PackNode) (before after : List RttPack)
      (p : RttPack)
      → ((k : ℕ) → sys.refused k ≡ false)
      → IsValid s.buffer
      → s.buffer.nodes ≡ pre ++ (n ∷ post)
      → s.packtimes ≡ before ++ (p ∷ after)
      → All (λ o. o.bsn ≢ n.seqnum) before
      → p.bsn ≡ n.seqnum
      → (freed (acked pre post n) < used s.buffer) ⊎ (s.buffer.dend < 64000)
      → (s' : Sender Double) × (recv_ack fl sys n.seqnum s ≡ ok (1, s'))
        × (s'.outbox ≡ s.outbox ++ ((timer, canceltimer (sys.past s.sends) n.seqnum) ∷ []))
        × (s'.packtimes ≡ before ++ (record p { on = false } ∷ after))
        × (contents s'.buffer ≡ drop (freed (acked pre post n)) (contents s.buffer))
        × IsValid s'.buffer
  unfolding recv_ack after_ack
  recv_ack_frees s pre post n before after p never v at slots fresh num h =
      let i : slot_of n.seqnum s.packtimes ≡ some (length before) =
        ap (slot_of n.seqnum) slots ∙ rw (sym num) (slot_of_found before after p (rw num fresh)) in
      let find : get_elem? s.packtimes (length before) ≡ some p =
        ap (λ (t : List RttPack). get_elem? t (length before)) slots
        ∙ get_elem?-middle before after p in
      let c : Chain s.buffer.dstart (s.buffer.packseq - length s.buffer.nodes) (pre ++ (n ∷ post)) =
        rw (sym at) v.sound.chain in
      let a : acknowledge n.seqnum s.buffer.nodes ≡ some (acked pre post n) =
        ap (acknowledge n.seqnum) at
        ∙ acknowledge_found pre post n (numbers_below s.buffer.dstart _ pre post n c).1 in
      let run : recv_ack fl sys n.seqnum s
          ≡ ok (1, after_ack n.seqnum (length before) p (acked pre post n) s) =
        rw (
          i,
          find,
          settle_found n.seqnum (length before) p (acked pre post n) s (never s.sends) a,
        ) in
      let d = checked s.buffer pre post n v at h in
      (
        after_ack n.seqnum (length before) p (acked pre post n) s,
        run,
        refl,
        ap (switch_off (length before)) slots ∙ switch_off-middle before after p,
        d.0,
        d.1,
      )

  -- If no send fails, an acknowledgement whose number stands in a slot, but whose packet is gone,
  -- returns 0 and leaves the buffer as it is; the timer process is asked to cancel all the same.
  pub recv_ack_gone :
      (num : ℕ) (s : Sender Double) (before after : List RttPack) (p : RttPack)
      → ((k : ℕ) → sys.refused k ≡ false)
      → All (λ m. m.seqnum ≢ num) s.buffer.nodes
      → s.packtimes ≡ before ++ (p ∷ after)
      → All (λ o. o.bsn ≢ num) before
      → p.bsn ≡ num
      → (s' : Sender Double) × (recv_ack fl sys num s ≡ ok (0, s'))
        × (s'.outbox ≡ s.outbox ++ ((timer, canceltimer (sys.past s.sends) num) ∷ []))
        × (s'.buffer ≡ s.buffer)
  unfolding recv_ack mark_acked after_cancel
  recv_ack_gone num s before after p never gone slots fresh is =
      let i : slot_of num s.packtimes ≡ some (length before) =
        ap (slot_of num) slots ∙ rw (sym is) (slot_of_found before after p (rw is fresh)) in
      let find : get_elem? s.packtimes (length before) ≡ some p =
        ap (λ (t : List RttPack). get_elem? t (length before)) slots
        ∙ get_elem?-middle before after p in
      let a : acknowledge num s.buffer.nodes ≡ none = acknowledge-none num s.buffer.nodes gone in
      let run : settle fl sys num (length before) p s ≡ (0, after_cancel num (length before) p s) =
        settle_cancel num (length before) p s (never s.sends) ∙ rw (a, mark_acked) in
      (after_cancel num (length before) p s, rw (i, find, run), refl, refl)
