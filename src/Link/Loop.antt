-- ===== src/Link/Loop.antt =====
-- A window on its way to tcpds, and the acknowledgements on their way back.
use project.Base.{
  ℕ, suc, ◌+◌, ◌-◌, ◌≤◌, ◌<◌, ◌≡◌, refl, sym, ap, ◌∙◌, subst, inl, inr, Bool, false, List, [], ◌∷◌,
  ◌++◌, map, arith, length, get_or, All, drop,
}
use project.CBuffer.{PackNode}
use project.CBuffer.Ring.{contents}
use project.CBuffer.Chain.{Chain, total}
use project.CBuffer.Invariant.{IsValid}
use project.Sender.{ok, Sender, System, send_window}
use project.Sender.Rtt.{Float}
use project.Sender.Slots.{free_count}
use project.Sender.Wire.{unsent_count}
use project.Sender.Send.{send_window-On}
use project.Sender.Tracks.{In}
use project.SBuffer.{SBuffer, initialize}
use project.SBuffer.Window.{is_some, initialize-IsWindow, received-initialize, IsWindow, received}
use project.Tcpds.{Stale, Daemon, Peer, network, ftps}
use project.Tcpds.Reassembly.{IsFull}
use project.Tcpds.Acks.{ack_to, receive_packets-Acknowledged}
use project.Link.{to_troll, pick, Occurs, IsOrder, receive_datagrams}
use project.Link.Pieces.{pieces, All-pick, pick-map, first_of-pick, receive_datagrams-map}
use project.Link.Transfer.{IsFresh, fresh-Chain, fresh-IsFull, picked-datagrams, picked-All}
use project.Link.Slide.{as_ack, receive_acks, receive_acks-freed}

-- The datagrams that go to the network.
unfoldable pub to_network : List (Peer × List ℕ) → List (List ℕ)
to_network [] = []
to_network ((network, bytes) ∷ r) = bytes ∷ to_network r
to_network ((ftps, bytes) ∷ r) = to_network r

pub to_network-acks :
    (remote : List ℕ) (before : List (Peer × List ℕ)) (acks : List ℕ)
    → to_network before ≡ []
    → to_network (before ++ map (ack_to remote) acks) ≡ map (as_ack remote) acks
unfolding to_network
to_network-acks remote [] [] quiet = refl
to_network-acks remote [] (q ∷ acks) quiet =
    ap (λ (l : List (List ℕ)). as_ack remote q ∷ l) (to_network-acks remote [] acks refl)
to_network-acks remote ((network, m) ∷ before) acks quiet = cc
to_network-acks remote ((ftps, m) ∷ before) acks quiet = to_network-acks remote before acks quiet

pieces-numbers :
    (buf : List ℕ) (limit s q : ℕ) (ns : List PackNode)
    → Chain s q ns
    → 1 ≤ q
    → q + length ns ≤ limit
    → All (λ p. (1 ≤ p.0) × (p.0 < limit)) (pieces buf ns)
pieces-numbers buf limit s q [] c lo h = tt
pieces-numbers buf limit s q (n ∷ r) c lo h = (
  (omega arith, omega arith),
  pieces-numbers buf limit (s + n.size) (q + 1) r c.4 (omega arith) (omega arith),
)

In-at : (k : ℕ) (xs : List ℕ) → In k xs → (i : ℕ) × (i < length xs) × (get_or xs i 0 ≡ k)
In-at k [] i = absurd i
In-at k (x ∷ xs) i = elim i [
  | inl here ↦ (0, omega arith, sym here)
  | inr later ↦ let (j, h, e) = In-at k xs later in (suc j, omega arith, e)
]

pick-In : (i : ℕ) (order xs : List ℕ) → Occurs i order → In (get_or xs i 0) (pick 0 order xs)
pick-In i [] xs o = absurd o
pick-In i (j ∷ order) xs o = elim o [
  | inl here ↦ inl (ap (λ (m : ℕ). get_or xs m 0) here)
  | inr later ↦ inr (pick-In i order xs later)
]

-- What is among the numbers is among those that the network delivers.
picked-In :
    (k : ℕ) (order xs : List ℕ) → IsOrder (length xs) order → In k xs → In k (pick 0 order xs)
picked-In k order xs o i =
    let (j, h, e) = In-at k xs i in
    subst (λ (m : ℕ). In m (pick 0 order xs)) e (pick-In j order xs (o.complete j h))

length-acks : (remote : List ℕ) (acks : List ℕ) → length (map (as_ack remote) acks) ≡ length acks
length-acks remote [] = refl
length-acks remote (q ∷ acks) = ap suc (length-acks remote acks)

picked-acks :
    (back : ℕ → List ℕ) (remote acks : List ℕ)
    → All (λ i. i < length acks) (back (length acks))
    → pick [] (back (length (map (as_ack remote) acks))) (map (as_ack remote) acks)
      ≡ map (as_ack remote) (pick 0 (back (length acks)) acks)
picked-acks back remote acks within =
    ap (λ (n : ℕ). pick [] (back n) (map (as_ack remote) acks)) (length-acks remote acks)
    ∙ pick-map (as_ack remote) 0 [] (back (length acks)) acks within

module _ (fl : Float) (sys : System) (never : (k : ℕ) → sys.refused k ≡ false) (refused : ℕ → Bool)
    (accepts : (k : ℕ) → refused k ≡ false) (stale : Stale) where
  open fl use {Double}

  -- If no send fails on either side, a valid window of whole packets numbered from 1 is sent for
  -- the first time, with slots enough, addresses of 16 bytes, nothing sent to the network before
  -- on either side, and the end of its data in front of the end of the buffer, each of its
  -- datagrams comes to tcpds at least once, in any order and with any repetitions, tcpds is new,
  -- and each acknowledgement that it sends comes back at least once, again in any order and with
  -- any repetitions, then tcpdc has given up exactly the bytes of this window, and its buffer is
  -- valid.
  pub send_window-receive_acks :
      (s : Sender Double) (d : Daemon SBuffer) (order : List ℕ) (back : ℕ → List ℕ)
      → IsFresh s.buffer
      → s.buffer.dend < 64000
      → length s.remote ≡ 16
      → unsent_count s.buffer.nodes ≤ free_count s.packtimes
      → to_troll s.outbox ≡ []
      → d.store ≡ initialize
      → length d.remote ≡ 16
      → to_network d.outbox ≡ []
      → IsOrder (length s.buffer.nodes) order
      → ((n : ℕ) → IsOrder n (back n))
      → (s' : Sender Double) × (d' : Daemon SBuffer) × (s'' : Sender Double) × (send_window fl sys s
          ≡ ok s')
        × (receive_datagrams refused stale (pick [] order (to_troll s'.outbox)) d ≡ ok d')
        × (receive_acks fl sys
              (pick [] (back (length (to_network d'.outbox))) (to_network d'.outbox))
              s'
            ≡ ok s'')
        × (contents s''.buffer ≡ drop (total s.buffer.nodes) (contents s.buffer))
        × IsValid s''.buffer
  send_window-receive_acks s d order back f inside r room quiet start r' quiet' o o' =
      let b = s.buffer in
      let c = fresh-Chain b f in
      let (s', sends, out, marked, _, slots) = send_window-On fl sys never s 1 c room in
      let ps = pick (0, []) order (pieces b.cirbuffer b.nodes) in
      let datagrams =
        picked-datagrams s.remote b.cirbuffer b.nodes s.outbox s'.outbox order f.whole_packets quiet
          out o.within in
      let full = picked-All IsFull b.cirbuffer b.nodes order (fresh-IsFull b f) o.within in
      let (d', runs, v) =
        receive_packets-Acknowledged refused accepts stale s.remote r ps d full
          (subst IsWindow (sym start) initialize-IsWindow) in
      let numbers =
        pieces-numbers b.cirbuffer b.packseq b.dstart 1 b.nodes c (omega arith)
          (omega (arith, f.from_one)) in
      let bounds =
        v.own (λ q. (1 ≤ q) × (q < b.packseq))
          (picked-All (λ p. (1 ≤ p.0) × (p.0 < b.packseq)) b.cirbuffer b.nodes order numbers
            o.within) in
      let complete : (k : ℕ) → 1 ≤ k → k < b.packseq → In k v.acks = λ k lo hi.
        v.complete k (ap (λ (x : SBuffer). received x k) start ∙ received-initialize k) (
          ap is_some (
            first_of-pick b.cirbuffer b.dstart k b.nodes order f.valid.sound.whole c f.whole_packets
              o.within lo (o.complete (k - 1) (omega (arith, f.from_one))))) in
      let q = back (length v.acks) in
      let (s'', frees, gone, valid) =
        receive_acks-freed fl sys s s' d.remote (pick 0 q v.acks) f inside marked slots r'
          (All-pick 0 (λ j. (1 ≤ j) × (j < b.packseq)) q v.acks bounds (o' (length v.acks)).within)
          (λ k lo hi. picked-In k q v.acks (o' (length v.acks)) (complete k lo hi)) in
      (
        s',
        d',
        s'',
        sends,
        ap (λ (ms : List (List ℕ)). receive_datagrams refused stale ms d) datagrams
            ∙ receive_datagrams-map refused stale s.remote ps d
            ∙ runs,
        ap (λ (ms : List (List ℕ)). receive_acks fl sys (pick [] (back (length ms)) ms) s')
              (ap to_network v.outbox_grown ∙ to_network-acks d.remote d.outbox v.acks quiet')
            ∙ ap (λ (ms : List (List ℕ)). receive_acks fl sys ms s')
                (picked-acks back d.remote v.acks (o' (length v.acks)).within)
            ∙ frees,
        gone,
        valid,
      )
