-- ===== src/Link/Slide.antt =====
-- A window that cbuffer.c sent, and the acknowledgements that tcpdc.c takes for it.
use project.Base.{
  ℕ, ◌+◌, ◌^◌, ◌≤◌, ◌<◌, ◌≡◌, ◌⊎◌, inl, inr, refl, sym, subst, false, List, [], ◌∷◌, ◌++◌, map,
  arith, length, All, drop, some, ltb, lt→ltb,
}
use native.Mathlib.Decide.{dec_le}
use project.Words.{le32}
use project.CBuffer.{Buffer, PackNode}
use project.CBuffer.Ring.{contents}
use project.CBuffer.Space.{used_eq}
use project.CBuffer.Chain.{Chain, total, HeadWaits}
use project.CBuffer.Invariant.{IsValid}
use project.CBuffer.Renew.{below}
use project.Sender.{Outcome, ok, ◌>>=◌, RttPack, Sender, System}
use project.Sender.Rtt.{Float}
use project.Sender.Wire.{mark}
use project.Sender.Restamp.{blank, restamped-IsValid}
use project.Sender.Tracks.{In, Tracks}
use project.Sender.Taken.{On, On-InSlot}
use project.Sender.Slide.{AreBelow, Slid, Slid-all}
use project.Sender.Acks.{Slides, recv_ack-Slides}
use project.Tcpdc.{from_network}
use project.Tcpdc.Round.{from_network-ack}
use project.Link.{IsWhole}
use project.Link.Pieces.{total-IsWhole}
use project.Link.Transfer.{IsFresh, fresh-Chain}

blank-mark : (ns : List PackNode) → blank (map mark ns) ≡ blank ns
blank-mark [] = refl
blank-mark (n ∷ r) = ground (arith, blank-mark r)

mark-Tracks : (ns : List PackNode) → All IsWhole ns → All (Tracks []) (map mark ns)
mark-Tracks [] w = tt
mark-Tracks (n ∷ r) w = ((λ e. ground arith, λ i. absurd i), mark-Tracks r w.1)

mark-HeadWaits : (ns : List PackNode) → All IsWhole ns → HeadWaits (map mark ns)
mark-HeadWaits [] w = tt
mark-HeadWaits (n ∷ r) w = λ e. ground arith

total-mark : (ns : List PackNode) → total (map mark ns) ≡ total ns
total-mark [] = refl
total-mark (n ∷ r) = ground (arith, total-mark r)

-- Where the numbers end before the limit, every packet is below it.
below_all :
    (limit s q : ℕ) (ns : List PackNode)
    → Chain s q ns
    → q + length ns ≤ limit
    → below limit (map mark ns) ≡ total ns
below_all limit s q [] c h = refl
below_all limit s q (n ∷ r) c h =
    let l : (mark n).seqnum < limit = ground arith in
    let lt = lt→ltb (mark n).seqnum limit l in
    let same : (mark n).size ≡ n.size = ground arith in
    rw lt (omega (arith, same, below_all limit (s + n.size) (q + 1) r c.4 (omega arith)))

slots_all :
    (s q : ℕ) (ns : List PackNode) (ps : List RttPack)
    → Chain s q ns
    → All IsWhole ns
    → All (λ n. ltb 0 n.ack ≡ false → On n.seqnum ps) ns
    → (k : ℕ) → q ≤ k
    → k < q + length ns
    → On k ps
slots_all s q [] ps c w o k lo hi = absurd (omega arith)
slots_all s q (n ∷ r) ps c w o k lo hi = elim (dec_le k q) [
  | yes first ↦ subst (λ (j : ℕ). On j ps) (omega (arith, c.3)) (o.0 (ground (arith, w.0.0)))
  | no later ↦ slots_all (s + n.size) (q + 1) r ps c.4 w.1 o.1 k (omega arith) (omega arith)
]

put_in : List ℕ → List ℕ → List ℕ
put_in [] came = came
put_in (q ∷ nums) came = put_in nums (q ∷ came)

put_in-In : (k : ℕ) (nums came : List ℕ) → In k nums ⊎ In k came → In k (put_in nums came)
unfolding put_in
put_in-In k [] came i = elim i [ inl none_left ↦ absurd none_left | inr j ↦ j ]
put_in-In k (q ∷ nums) came i = put_in-In k nums (q ∷ came) (elim i [
  | inl (inl here) ↦ inr (inl here)
  | inl (inr later) ↦ inl later
  | inr before ↦ inr (inr before)
])

-- A fresh window whose packets were sent.
sent-Slid :
    (b : Buffer)
    → IsFresh b
    → b.dend < 64000
    → Slid b.packseq (total b.nodes) (contents b) [] (record b { nodes = map mark b.nodes })
sent-Slid b f inside = record {
  inside = inside;
  valid = restamped-IsValid b marked same (mark-HeadWaits b.nodes f.whole_packets) f.valid;
  gone = 0;
  kept =
      let u = used_eq b (record b { nodes = marked }) refl refl refl in
      unfold contents in rw u refl;
  balance = omega (
    arith,
    below_all b.packseq b.dstart _ b.nodes f.valid.sound.chain (omega (arith, f.from_one)),
  );
  beyond = omega arith;
  tracked = mark-Tracks b.nodes f.whole_packets;
}
  where
    marked : List PackNode
    marked = map mark b.nodes

    same : blank marked ≡ blank b.nodes
    same = blank-mark b.nodes

-- An acknowledgement as tcpds sends it.
abbrev pub as_ack : List ℕ → ℕ → List ℕ
as_ack remote q = remote ++ le32 q

module _ (fl : Float) (sys : System) where
  open fl use {Double}

  -- The client daemon takes these datagrams of the network in.
  pub receive_acks : List (List ℕ) → Sender Double → Outcome (Sender Double)
  receive_acks [] s = ok s
  receive_acks (m ∷ ms) s = from_network fl sys (some m) s >>= λ s'. receive_acks ms s'

  acks-Slides :
      (limit all : ℕ) (held remote came nums : List ℕ) (s : Sender Double)
      → length remote ≡ 16
      → limit < 2 ^ 32
      → All (λ q. (1 ≤ q) × (q < limit)) nums
      → AreBelow limit came
      → Slides fl sys limit all held came s
      → (s' : Sender Double) × (receive_acks (map (as_ack remote) nums) s ≡ ok s')
        × Slides fl sys limit all held (put_in nums came) s'
  unfolding receive_acks put_in
  acks-Slides limit all held remote came [] s r small bounds low v = (s, refl, v)
  acks-Slides limit all held remote came (q ∷ nums) s r small bounds low v =
      let low' : AreBelow limit (q ∷ came) =
        λ k i. elim i [ inl here ↦ omega arith | inr before ↦ low k before ] in
      let (o, e, v') =
        recv_ack-Slides fl sys limit all held q came low' s bounds.0.0 bounds.0.1 v in
      let (s', runs, w) =
        acks-Slides limit all held remote (q ∷ came) nums o.1 r small bounds.1 low' v' in
      (s', rw (from_network-ack fl sys remote q s r (omega arith), e) runs, w)

  -- A window that was sent, before anything comes back.
  pub sent_window-Slides :
      (s s' : Sender Double)
      → IsFresh s.buffer
      → s.buffer.dend < 64000
      → s'.buffer ≡ record (s.buffer) { nodes = map mark s.buffer.nodes }
      → All (λ n. ltb 0 n.ack ≡ false → On n.seqnum s'.packtimes) s.buffer.nodes
      → Slides fl sys s.buffer.packseq (total s.buffer.nodes) (contents s.buffer) [] s'
  sent_window-Slides s s' f inside marked slots = record {
    window =
        subst (Slid s.buffer.packseq (total s.buffer.nodes) (contents s.buffer) []) (sym marked)
          (sent-Slid s.buffer f inside);
    slots = λ k lo hi. On-InSlot k s'.packtimes (
        slots_all s.buffer.dstart 1 s.buffer.nodes s'.packtimes (fresh-Chain s.buffer f)
          f.whole_packets slots k lo (omega (arith, f.from_one)));
  }

  -- All acknowledgements of a window that was sent come in, in any order, some of them again.
  pub receive_acks-freed :
      (s s' : Sender Double) (remote nums : List ℕ)
      → IsFresh s.buffer
      → s.buffer.dend < 64000
      → s'.buffer ≡ record (s.buffer) { nodes = map mark s.buffer.nodes }
      → All (λ n. ltb 0 n.ack ≡ false → On n.seqnum s'.packtimes) s.buffer.nodes
      → length remote ≡ 16
      → All (λ q. (1 ≤ q) × (q < s.buffer.packseq)) nums
      → ((k : ℕ) → 1 ≤ k → k < s.buffer.packseq → In k nums)
      → (s'' : Sender Double) × (receive_acks (map (as_ack remote) nums) s' ≡ ok s'')
        × (contents s''.buffer ≡ drop (total s.buffer.nodes) (contents s.buffer))
        × IsValid s''.buffer
  receive_acks-freed s s' remote nums f inside marked slots r bounds complete =
      let b = s.buffer in
      let (s'', runs, v) =
        acks-Slides b.packseq (total b.nodes) (contents b) remote [] nums s' r
          (omega
            (arith, total-IsWhole b.nodes f.whole_packets, f.valid.sound.in_window, f.from_one))
          bounds (λ k i. absurd i) (sent_window-Slides s s' f inside marked slots) in
      (
        s'',
        runs,
        Slid-all b.packseq (total b.nodes) (contents b) (put_in nums []) s''.buffer v.window
            (λ k lo hi. put_in-In k nums [] (inl (complete k lo hi))),
        v.window.valid,
      )
