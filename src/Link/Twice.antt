-- ===== src/Link/Twice.antt =====
-- A single packet of cbuffer.c that is sent, and sent again when its timer has ended.
use project.Base.{
  ℕ, ◌≤◌, ◌≡◌, refl, sym, ap, ap₂, ◌∙◌, subst, false, List, [], ◌∷◌, ◌++◌, map, arith, All, ltb,
}
use project.CBuffer.{Buffer, PackNode, packet_bytes}
use project.CBuffer.Chain.{Chain}
use project.CBuffer.Packets.{packet_bytes-ack}
use project.TimerClient.{starttimer}
use project.Sender.{
  ok, Datagram, troll, timer, host, packet, Sender, System, send_window, timer_expire,
}
use project.Sender.Rtt.{Float}
use project.Sender.Slots.{free_count}
use project.Sender.Wire.{unsent_count, mark, wire}
use project.Sender.Taken.{On, On-split}
use project.Sender.Send.{send_window-On}
use project.Sender.Expire.{timer_expire-On}
use project.Link.{to_troll, IsWhole}
use project.Link.Pieces.{to_troll-append}
use project.Link.Transfer.{IsFresh, fresh-Chain}

-- The datagrams that go to the timer process.
unfoldable pub to_timer : List Datagram → List (List ℕ)
to_timer [] = []
to_timer ((timer, bytes) ∷ r) = bytes ∷ to_timer r
to_timer ((troll, bytes) ∷ r) = to_timer r
to_timer ((host, bytes) ∷ r) = to_timer r

to_timer-append : (xs ys : List Datagram) → to_timer (xs ++ ys) ≡ to_timer xs ++ to_timer ys
unfolding to_timer
to_timer-append [] ys = refl
to_timer-append ((timer, m) ∷ xs) ys = ap (λ (l : List (List ℕ)). m ∷ l) (to_timer-append xs ys)
to_timer-append ((troll, m) ∷ xs) ys = to_timer-append xs ys
to_timer-append ((host, m) ∷ xs) ys = to_timer-append xs ys

-- One packet and the request of its timer.
abbrev sent_once : List ℕ → List ℕ → PackNode → List Datagram
sent_once remote buf n =
    (troll, packet remote n.seqnum (packet_bytes buf n) n.size)
    ∷ ((timer, starttimer 1000 n.seqnum) ∷ [])

unsent : (n : PackNode) → n.ack ≡ 0 → ltb 0 n.ack ≡ false
unsent n e = ground arith

mark_one : (n : PackNode) → n.ack ≡ 0 → map mark (n ∷ []) ≡ record n { ack = 1 } ∷ []
mark_one n e = rw (unsent n e) refl

wire_one :
    (remote buf : List ℕ) (n : PackNode)
    → n.ack ≡ 0
    → wire remote buf (n ∷ []) ≡ sent_once remote buf n
wire_one remote buf n e = rw (unsent n e) refl

sent_once_again :
    (remote buf : List ℕ) (n : PackNode)
    → sent_once remote buf (record n { ack = 1 }) ≡ sent_once remote buf n
sent_once_again remote buf n = rw (packet_bytes-ack buf n 1) refl

module _ (fl : Float) (sys : System) (never : (k : ℕ) → sys.refused k ≡ false) where
  open fl use {Double}

  -- The window of one packet, sent and, when the notice of its timer comes, sent again.
  pub record Twice (s : Sender Double) (n : PackNode) : Type 0 where
    pub once : Sender Double
    pub again : Sender Double
    pub runs : send_window fl sys s ≡ ok once
    pub reruns : send_window fl sys (timer_expire fl sys n.seqnum once) ≡ ok again
    pub once_out : once.outbox ≡ s.outbox ++ sent_once s.remote s.buffer.cirbuffer n
    pub again_out : again.outbox ≡ once.outbox ++ sent_once s.remote s.buffer.cirbuffer n
    pub marked : again.buffer ≡ record (s.buffer) { nodes = map mark s.buffer.nodes }
    pub slots : On n.seqnum again.packtimes

  pub sent-Twice :
      (s : Sender Double) (n : PackNode)
      → IsFresh s.buffer
      → s.buffer.nodes ≡ n ∷ []
      → unsent_count s.buffer.nodes ≤ free_count s.packtimes
      → Twice s n
  sent-Twice s n f at room =
      let b = s.buffer in
      let c = fresh-Chain b f in
      let whole : IsWhole n = (subst (All IsWhole) at f.whole_packets).0 in
      let (s1, runs, out, marked, remote', slots) = send_window-On fl sys never s 1 c room in
      let sent_n : PackNode = record n { ack = 1 } in
      let at' : s1.buffer.nodes ≡ sent_n ∷ [] =
        ap (λ (x : Buffer). x.nodes) marked ∙ ap (map mark) at ∙ mark_one n whole.0 in
      let chain =
        subst (λ (x : Buffer). Chain x.dstart 1 x.nodes) (sym marked)
          (subst (Chain b.dstart 1) (sym (ap (map mark) at ∙ mark_one n whole.0))
            (subst (Chain b.dstart 1) at c)) in
      let (before, p, after, packtimes, is) = On-split n.seqnum s1.packtimes (
        (subst (All (λ m. ltb 0 m.ack ≡ false → On m.seqnum s1.packtimes)) at slots).0
          (unsent n whole.0)) in
      let (s2, reruns, out', same, slot) =
        timer_expire-On fl sys s1 1 [] [] sent_n before after p never chain at' refl
          (ap unsent_count at') packtimes is in
      record {
        once = s1;
        again = s2;
        runs = runs;
        reruns = reruns;
        once_out =
            out
            ∙ ap (λ (ns : List PackNode). s.outbox ++ wire s.remote b.cirbuffer ns) at
            ∙ ap (λ (l : List Datagram). s.outbox ++ l) (wire_one s.remote b.cirbuffer n whole.0);
        again_out =
            out'
            ∙ ap₂
                (λ (remote : List ℕ) (x : Buffer). s1.outbox ++ sent_once remote x.cirbuffer sent_n)
                remote' marked
            ∙ ap (λ (l : List Datagram). s1.outbox ++ l) (sent_once_again s.remote b.cirbuffer n);
        marked = same ∙ marked;
        slots = slot;
      }

  pub troll-Twice :
      (s : Sender Double) (n : PackNode)
      → to_troll s.outbox ≡ []
      → (w : Twice s n)
      → let m = packet s.remote n.seqnum (packet_bytes s.buffer.cirbuffer n) n.size in
        to_troll w.again.outbox ≡ m ∷ (m ∷ [])
  unfolding to_troll
  troll-Twice s n quiet w =
      let m = packet s.remote n.seqnum (packet_bytes s.buffer.cirbuffer n) n.size in
      let add : List (List ℕ) → List (List ℕ) = λ l. l ++ (m ∷ []) in
      ap to_troll w.again_out
      ∙ to_troll-append w.once.outbox _
      ∙ ap add (ap to_troll w.once_out ∙ to_troll-append s.outbox _ ∙ ap add quiet)

  pub timer_once :
      (s : Sender Double) (n : PackNode)
      → to_timer s.outbox ≡ []
      → (w : Twice s n) → to_timer w.once.outbox ≡ starttimer 1000 n.seqnum ∷ []
  unfolding to_timer
  timer_once s n quiet w =
      ap to_timer w.once_out
      ∙ to_timer-append s.outbox _
      ∙ ap (λ (l : List (List ℕ)). l ++ (starttimer 1000 n.seqnum ∷ [])) quiet
