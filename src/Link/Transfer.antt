-- ===== src/Link/Transfer.antt =====
-- A window that the sender sends, and the bytes that ftps is given.
use project.Base.{
  ℕ, Bool, ◌+◌, ◌-◌, ◌^◌, ◌≤◌, ◌<◌, ◌≡◌, sym, ap, ap₂, ◌∙◌, subst, false, List, [], ◌++◌, map,
  arith, length, take, All,
}
use project.CBuffer.{Buffer, PackNode}
use project.CBuffer.Ring.{ring, contents}
use project.CBuffer.Chain.{Chain, total}
use project.CBuffer.Invariant.{IsValid}
use project.CBuffer.Packets.{take-ring}
use project.CBuffer.Space.{used}
use project.Sender.{Outcome, ok, ◌>>=◌, Datagram, Sender, System, send_window}
use project.Sender.Rtt.{Float}
use project.Sender.Slots.{free_count}
use project.Sender.Wire.{wire, unsent_count}
use project.Sender.Send.{send_window-Sent}
use project.SBuffer.{SBuffer, initialize}
use project.SBuffer.Window.{is_some}
use project.SBuffer.Read.{cut, stream, sum}
use project.Tcpds.{Stale, Daemon, Peer}
use project.Tcpds.Reassembly.{
  IsFull, ToNetwork, to_ftps, serve_requests, receive_packets-serve_requests,
}
use project.Link.{to_troll, pick, IsOrder, receive_datagrams, IsWhole}
use project.Link.Pieces.{
  as_datagram, receive_datagrams-map, pieces, to_troll-append, to_troll-wire, All-pick, pick-map,
  length-pieces, first_of-pick, stream-pick, pieces-IsFull, total-IsWhole,
}

-- A window of whole packets, numbered from 1, that was not sent yet.
pub record IsFresh (b : Buffer) : Type 0 where
  pub valid : IsValid b
  pub from_one : b.packseq ≡ length b.nodes + 1
  pub whole_packets : All IsWhole b.nodes

-- The datagrams of a window that was sent, as the network delivers them.
pub picked-datagrams :
    (remote buf : List ℕ) (ns : List PackNode) (before after : List Datagram) (order : List ℕ)
    → All IsWhole ns
    → to_troll before ≡ []
    → after ≡ before ++ wire remote buf ns
    → All (λ i. i < length ns) order
    → pick [] order (to_troll after) ≡ map (as_datagram remote) (pick (0, []) order (pieces buf ns))
picked-datagrams remote buf ns before after order whole quiet out within =
    ap (λ (x : List Datagram). pick [] order (to_troll x)) out
    ∙ ap (pick [] order)
        (to_troll-append before _ ∙ ap₂ ◌++◌ quiet (to_troll-wire remote buf ns whole))
    ∙ pick-map (as_datagram remote) (0, []) [] order (pieces buf ns)
        (subst (λ (n : ℕ). All (λ i. i < n) order) (sym (length-pieces buf ns)) within)

-- What holds of all pieces of a window holds of those that the network delivers.
pub picked-All :
    (P : ℕ × List ℕ → Type 0) (buf : List ℕ) (ns : List PackNode) (order : List ℕ)
    → All P (pieces buf ns)
    → All (λ i. i < length ns) order
    → All P (pick (0, []) order (pieces buf ns))
picked-All P buf ns order all within =
    All-pick (0, []) P order (pieces buf ns) all
      (subst (λ (n : ℕ). All (λ i. i < n) order) (sym (length-pieces buf ns)) within)

pub fresh-Chain : (b : Buffer) → IsFresh b → Chain b.dstart 1 b.nodes
fresh-Chain b f =
    subst (λ (q : ℕ). Chain b.dstart q b.nodes) (omega (arith, f.from_one)) f.valid.sound.chain

-- Such a window has 20 packets at most, all of the first round of numbers.
pub fresh-IsFull : (b : Buffer) → IsFresh b → All IsFull (pieces b.cirbuffer b.nodes)
fresh-IsFull b f =
    let len = total-IsWhole b.nodes f.whole_packets in
    pieces-IsFull b.cirbuffer b.dstart 1 b.nodes f.valid.sound.whole (fresh-Chain b f)
      f.whole_packets (omega arith) (omega (arith, f.valid.sound.in_window))

module _ (fl : Float) (sys : System) (never : (k : ℕ) → sys.refused k ≡ false) (refused : ℕ → Bool)
    (accepts : (k : ℕ) → refused k ≡ false) (stale : Stale) where
  open fl use {Double}

  -- If no send fails on either side, a valid window of whole packets numbered from 1 is sent for
  -- the first time, with slots enough, an address of 16 bytes and nothing sent to the network
  -- before, each of its datagrams comes to tcpds at least once, in any order and with any
  -- repetitions, and tcpds is new, then ftps, asking in sizes that make less than the window in
  -- all, is sent the bytes that the client's buffer holds, in order, cut into these sizes, after
  -- whatever acknowledgements went to the network.
  pub send_window-serve_requests :
      (s : Sender Double) (d : Daemon SBuffer) (order sizes : List ℕ)
      → IsFresh s.buffer
      → length s.remote ≡ 16
      → unsent_count s.buffer.nodes ≤ free_count s.packtimes
      → to_troll s.outbox ≡ []
      → d.store ≡ initialize
      → IsOrder (length s.buffer.nodes) order
      → All (λ size. size < 2 ^ 32) sizes
      → sum sizes < total s.buffer.nodes
      → (s' : Sender Double) × (send_window fl sys s ≡ ok s')
        × (acks : List (Peer × List ℕ)) × (d' : Daemon SBuffer) × ((receive_datagrams refused stale
                (pick [] order (to_troll s'.outbox))
                d
              >>= λ d''. serve_requests refused sizes d'')
            ≡ ok d')
        × (d'.outbox
            ≡ (d.outbox ++ acks)
              ++ map to_ftps (cut sizes (take (total s.buffer.nodes) (contents s.buffer))))
        × ToNetwork acks
  unfolding contents
  send_window-serve_requests s d order sizes f r room quiet start o small less =
      let b = s.buffer in
      let v = f.valid.sound in
      let c = fresh-Chain b f in
      let (s', sends, out, marked, slots) = send_window-Sent fl sys never s 1 c room in
      let len = total-IsWhole b.nodes f.whole_packets in
      let ps = pick (0, []) order (pieces b.cirbuffer b.nodes) in
      let datagrams : pick [] order (to_troll s'.outbox) ≡ map (as_datagram s.remote) ps =
        picked-datagrams s.remote b.cirbuffer b.nodes s.outbox s'.outbox order f.whole_packets quiet
          out o.within in
      let full = picked-All IsFull b.cirbuffer b.nodes order (fresh-IsFull b f) o.within in
      let (acks, d', runs, sent, to) =
        receive_packets-serve_requests refused accepts stale s.remote r ps (length b.nodes) sizes d
          full (omega arith)
          (λ k lo hi. ap is_some (
            first_of-pick b.cirbuffer b.dstart k b.nodes order v.whole c f.whole_packets o.within lo
              (o.complete (k - 1) (omega arith))))
          small (omega arith) start in
      let window : stream ps (length b.nodes)
          ≡ take (total b.nodes) (ring b.cirbuffer b.dstart (used b)) =
        stream-pick b.cirbuffer b.dstart (length b.nodes) b.nodes order v.whole c f.whole_packets o
          (omega arith)
        ∙ ap (ring b.cirbuffer b.dstart) (sym len)
        ∙ sym (take-ring b.cirbuffer b.dstart (used b) (total b.nodes) v.held) in
      (
        s',
        sends,
        acks,
        d',
        ap
              (λ (ms : List (List ℕ)).
                receive_datagrams refused stale ms d >>= λ d''. serve_requests refused sizes d'')
              datagrams
            ∙ ap (λ (x : Outcome (Daemon SBuffer)). x >>= λ d''. serve_requests refused sizes d'')
                (receive_datagrams-map refused stale s.remote ps d)
            ∙ runs,
        sent ∙ ap (λ (l : List ℕ). (d.outbox ++ acks) ++ map to_ftps (cut sizes l)) window,
        to,
      )
