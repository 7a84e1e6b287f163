-- ===== src/Tcpds/Reassembly.antt =====
-- tcpds.c from the packets of the network to the bytes that ftps gets.
use project.Base.{
  ℕ, ◌+◌, ◌*◌, ◌^◌, ◌≤◌, ◌<◌, ◌≡◌, refl, sym, ap, ◌∙◌, subst, Bool, true, false, List, [], ◌∷◌,
  ◌++◌, append-nil, append_assoc, map, arith, length, length-append, take, take_front, take-length,
  ◌==◌, All, Bool-cases, inl, inr,
}
use project.Words.{le32, read_le32, read_le32-le32}
use project.Sender.{Outcome, ok, ◌>>=◌, packet}
use project.SBuffer
use project.SBuffer.{SBuffer, Run, returns, initialize}
use project.SBuffer.Results.{bind-returns}
use project.SBuffer.Window.{is_some}
use project.SBuffer.Deliver.{deliver, first_of, IsPacket}
use project.SBuffer.Read.{requests, cut, stream, stream_ext, sum, deliver-requests}
use project.Tcpds.{Stale, Daemon, Peer, network, ftps, send, host_is_set, remote_is_set}
use project.Tcpds.Store.{sbuffer, answered, packet_step}

-- Packets of 1000 bytes with numbers of the first window.
abbrev pub IsFull : ℕ × List ℕ → Type 0
IsFull p = (1 ≤ p.0) × (p.0 ≤ 64) × (length p.1 ≡ 1000)

abbrev pub ToNetwork : List (Peer × List ℕ) → Type 0
ToNetwork ms = All (λ m. m.0 ≡ network) ms

abbrev pub to_ftps : List ℕ → Peer × List ℕ
to_ftps bytes = (ftps, bytes)

module _ (refused : ℕ → Bool) (stale : Stale) (remote : List ℕ) where
  -- The packets come in, one datagram each.
  unfoldable pub receive_packets : List (ℕ × List ℕ) → Daemon SBuffer → Outcome (Daemon SBuffer)
  receive_packets [] d = ok d
  receive_packets ((q, bytes) ∷ ps) d =
      remote_is_set sbuffer refused stale (packet remote q bytes 1000) d >>= λ d'.
      receive_packets ps d'

module _ (refused : ℕ → Bool) where
  -- Requests of ftps.
  pub serve_requests : List ℕ → Daemon SBuffer → Outcome (Daemon SBuffer)
  serve_requests [] d = ok d
  serve_requests (size ∷ sizes) d =
      host_is_set sbuffer refused (le32 size) d >>= λ d'. serve_requests sizes d'

module _ (refused : ℕ → Bool) (never : (k : ℕ) → refused k ≡ false) (stale : Stale)
    (remote : List ℕ) (r : length remote ≡ 16) where
  -- What `addData` is given: the packet and what lies behind it in the array.
  abbrev with_stale : List (ℕ × List ℕ) → List (ℕ × List ℕ)
  with_stale [] = []
  with_stale ((q, bytes) ∷ ps) = (q, bytes ++ stale.behind) ∷ with_stale ps

  with_stale-IsPacket : (ps : List (ℕ × List ℕ)) → All IsFull ps → All IsPacket (with_stale ps)
  with_stale-IsPacket [] all = tt
  with_stale-IsPacket ((q, bytes) ∷ ps) all = (
    (all.0.0, all.0.1, omega (arith, length-append bytes stale.behind)),
    with_stale-IsPacket ps all.1,
  )

  first_of-with_stale :
      (ps : List (ℕ × List ℕ)) (k : ℕ) → All IsFull ps → first_of (with_stale ps) k ≡ first_of ps k
  unfolding first_of
  first_of-with_stale [] k all = refl
  first_of-with_stale ((q, bytes) ∷ ps) k all =
      let cut_off : take 1000 (bytes ++ stale.behind) ≡ take 1000 bytes =
        take_front 1000 bytes stale.behind all.0.2
        ∙ sym (subst (λ (n : ℕ). take n bytes ≡ bytes) all.0.2 (take-length bytes)) in
      rw (cut_off, first_of-with_stale ps k all.1) refl

  stream-with_stale :
      (ps : List (ℕ × List ℕ)) (n : ℕ) → All IsFull ps → stream (with_stale ps) n ≡ stream ps n
  stream-with_stale ps n all = stream_ext (with_stale ps) ps n (λ k. first_of-with_stale ps k all)

  answered-store :
      (q result : ℕ) (b : SBuffer) (d : Daemon SBuffer) → (answered q result b d).store ≡ b
  answered-store q result b d = elim (Bool-cases (result == 0)) [
    | inl e ↦ rw e refl
    | inr e ↦ rw e refl
  ]

  answered-outbox :
      (q result : ℕ) (b : SBuffer) (d : Daemon SBuffer)
      → (acks : List (Peer × List ℕ)) × ((answered q result b d).outbox ≡ d.outbox ++ acks)
        × ToNetwork acks
  answered-outbox q result b d = elim (Bool-cases (result == 0)) [
    | inl e ↦ ([], rw e (sym (append-nil d.outbox)), tt)
    | inr e ↦ ((network, d.remote ++ le32 q) ∷ [], rw e refl, (refl, tt))
  ]

  ToNetwork-append :
      (xs ys : List (Peer × List ℕ)) → ToNetwork xs → ToNetwork ys → ToNetwork (xs ++ ys)
  ToNetwork-append [] ys a b = b
  ToNetwork-append (x ∷ xs) ys a b = (a.0, ToNetwork-append xs ys a.1 b)

  -- The packets are delivered, and what is sent meanwhile goes to the network.
  record Received (ps : List (ℕ × List ℕ)) (d : Daemon SBuffer) (b : SBuffer) : Type 0 where
    daemon : Daemon SBuffer
    acks : List (Peer × List ℕ)
    runs : receive_packets refused stale remote ps d ≡ ok daemon
    store_is : daemon.store ≡ b
    outbox_is : daemon.outbox ≡ d.outbox ++ acks
    to_network : ToNetwork acks

  receive_packets-Received :
      (ps : List (ℕ × List ℕ)) (d : Daemon SBuffer) (b : SBuffer)
      → All IsFull ps
      → deliver (with_stale ps) d.store ≡ returns b
      → Received ps d b
  unfolding deliver receive_packets
  receive_packets-Received [] d b all e = record {
    daemon = d;
    acks = [];
    runs = refl;
    store_is = cc;
    outbox_is = sym (append-nil d.outbox);
    to_network = tt;
  }
  receive_packets-Received ((q, bytes) ∷ ps) d b all e =
      let (o, e', e'') =
        bind-returns (SBuffer.add_data q 1000 (bytes ++ stale.behind) d.store)
          (λ o. deliver (with_stale ps) o.1) b e in
      let d' = answered q o.0 o.1 d in
      let step = packet_step refused never stale remote r q o.0 bytes d o.1 all.0.2 all.0.1 e' in
      let same = answered-store q o.0 o.1 d in
      let v =
        receive_packets-Received ps d' b all.1
          (subst (λ (s : SBuffer). deliver (with_stale ps) s ≡ returns b) (sym same) e'') in
      let (ack, out, to) = answered-outbox q o.0 o.1 d in
      record {
        daemon = v.daemon;
        acks = ack ++ v.acks;
        runs = rw step v.runs;
        store_is = v.store_is;
        outbox_is =
            v.outbox_is
            ∙ ap (λ (l : List (Peer × List ℕ)). l ++ v.acks) out
            ∙ append_assoc d.outbox ack v.acks;
        to_network = ToNetwork-append ack v.acks to v.to_network;
      }

  host_step :
      (size : ℕ) (d : Daemon SBuffer) (bytes : List ℕ) (b : SBuffer)
      → size < 2 ^ 32
      → SBuffer.request_data size d.store ≡ returns (bytes, b)
      → host_is_set sbuffer refused (le32 size) d
        ≡ ok
            (record d { store = b; sends = d.sends + 1; outbox = d.outbox ++ ((ftps, bytes) ∷ []) })
  unfolding host_is_set send
  host_step size d bytes b small e =
      let size_is : read_le32 (le32 size) 0 ≡ size = read_le32-le32 size [] small in
      rw (size_is, e, never d.sends) refl

  -- Each request of ftps is answered with the bytes that `requestData` gives.
  serve_requests-requests :
      (sizes : List ℕ) (d : Daemon SBuffer) (outs : List (List ℕ)) (b : SBuffer)
      → All (λ size. size < 2 ^ 32) sizes
      → requests sizes d.store ≡ returns (outs, b)
      → (d' : Daemon SBuffer) × (serve_requests refused sizes d ≡ ok d')
        × (d'.outbox ≡ d.outbox ++ map to_ftps outs)
  unfolding requests serve_requests
  serve_requests-requests [] d outs b all e =
      let nothing : outs ≡ [] = cc in (d, refl, rw nothing (sym (append-nil d.outbox)))
  serve_requests-requests (size ∷ sizes) d outs b all e =
      let (o, e', e'') = bind-returns (SBuffer.request_data size d.store) _ (outs, b) e in
      let (o', f, f') = bind-returns (requests sizes o.1) _ (outs, b) e'' in
      let d' : Daemon SBuffer = record d {
        store = o.1;
        sends = d.sends + 1;
        outbox = d.outbox ++ ((ftps, o.0) ∷ []);
      } in
      let (d'', runs, out) = serve_requests-requests sizes d' o'.0 o'.1 all.1 f in
      let outs_are : o.0 ∷ o'.0 ≡ outs = cc in
      (
        d'',
        rw (host_step size d o.0 o.1 all.0 e') runs,
        out
            ∙ append_assoc d.outbox ((ftps, o.0) ∷ []) (map to_ftps o'.0)
            ∙ ap (λ (l : List (List ℕ)). d.outbox ++ map to_ftps l) outs_are,
      )

  -- From the start, with no send failing: packets of 1000 bytes with numbers from 1 to 64 come in any
  -- order and as often as may be, and the packets 1 to `n` are among them, with `n` at least 1. Then
  -- ftps, asking in sizes that make less than n * 1000 bytes in all, is sent just these bytes in
  -- order, cut into the sizes asked for, after whatever acknowledgements went to the network.
  pub receive_packets-serve_requests :
      (ps : List (ℕ × List ℕ)) (n : ℕ) (sizes : List ℕ) (d : Daemon SBuffer)
      → All IsFull ps
      → 1 ≤ n
      → ((k : ℕ) → 1 ≤ k → k ≤ n → is_some (first_of ps k) ≡ true)
      → All (λ size. size < 2 ^ 32) sizes
      → sum sizes < n * 1000
      → d.store ≡ initialize
      → (acks : List (Peer × List ℕ)) × (d' : Daemon SBuffer) × ((receive_packets refused stale
              remote ps d
            >>= λ d''. serve_requests refused sizes d'')
          ≡ ok d')
        × (d'.outbox ≡ (d.outbox ++ acks) ++ map to_ftps (cut sizes (stream ps n)))
        × ToNetwork acks
  receive_packets-serve_requests ps n sizes d all lo there small less start =
      let (b, e) =
        deliver-requests (with_stale ps) n sizes (with_stale-IsPacket ps all) lo
          (λ k p q. ap is_some (first_of-with_stale ps k all) ∙ there k p q) less in
      let (c, e', e'') = bind-returns (deliver (with_stale ps) initialize) _ _ e in
      let v = receive_packets-Received ps d c all (ap (deliver (with_stale ps)) start ∙ e') in
      let (d', runs, out) =
        serve_requests-requests sizes v.daemon (cut sizes (stream (with_stale ps) n)) b small
          (ap (requests sizes) v.store_is ∙ e'') in
      (
        v.acks,
        d',
        rw v.runs runs,
        out
            ∙ ap
                (λ (l : List (Peer × List ℕ)).
                  l ++ map to_ftps (cut sizes (stream (with_stale ps) n)))
                v.outbox_is
            ∙ ap (λ (l : List ℕ). (d.outbox ++ v.acks) ++ map to_ftps (cut sizes l))
                (stream-with_stale ps n all),
        v.to_network,
      )
