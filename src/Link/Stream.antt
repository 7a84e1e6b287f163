-- ===== src/Link/Stream.antt =====
-- From the blocks that tcpdc adds to its new buffer to the bytes that ftps is given.
use project.Base.{
  ℕ, zero, suc, ◌+◌, ◌*◌, ◌^◌, ◌≤◌, ◌<◌, ◌≡◌, refl, sym, ap, ◌∙◌, subst, Bool, false, List, [], ◌∷◌,
  ◌++◌, map, arith, length, length-append, length-replicate, replicate, replicate_none,
  replicate_more, take, take-length, All,
}
use project.CBuffer.{Buffer, PackNode, initialize, space_left}
use project.CBuffer.Space.{used}
use project.CBuffer.Ring.{contents}
use project.CBuffer.Chain.{total}
use project.CBuffer.Add.{length-contents}
use project.CBuffer.Invariant.{initialize-IsValid}
use project.Sender.{ok, ◌>>=◌, RttPack, Sender, System, start, send_window}
use project.Sender.Rtt.{Float}
use project.Sender.Slots.{free_count}
use project.Sender.Wire.{unsent_count}
use project.SBuffer
use project.SBuffer.{SBuffer}
use project.SBuffer.Read.{cut, sum}
use project.Tcpds.{Stale, Daemon, Peer}
use project.Tcpds.Reassembly.{ToNetwork, to_ftps, serve_requests}
use project.Ftpc.Blocks.{joined}
use project.Link.{to_troll, pick, IsOrder, receive_datagrams, IsWhole}
use project.Link.Pieces.{total-IsWhole}
use project.Link.Filled.{Filling, add_blocks, add_blocks-Filling}
use project.Link.Transfer.{IsFresh, send_window-serve_requests}

initialize-Filling : Filling 0 initialize
unfolding used space_left
initialize-Filling = record {
  valid = initialize-IsValid;
  whole = tt;
  count_is = refl;
  next_is = refl;
  used_is = refl;
}

-- A window of blocks is a fresh one.
Filling-IsFresh : (count : ℕ) (b : Buffer) → Filling count b → IsFresh b
Filling-IsFresh count b v = record {
  valid = v.valid;
  from_one = omega (arith, v.next_is, v.count_is);
  whole_packets = v.whole;
}

nothing_held : contents initialize ≡ []
unfolding contents used space_left
nothing_held = refl

all_free : (n : ℕ) (p : RttPack) → p.on ≡ false → free_count (replicate n p) ≡ n
all_free zero p e = rw replicate_none refl
all_free (suc n) p e =
    let one : free_count (p ∷ []) ≡ 1 = rw e refl in
    rw (replicate_more n p) (omega (arith, one, all_free n p e))

all_unsent : (ns : List PackNode) → All IsWhole ns → unsent_count ns ≡ length ns
all_unsent [] w = refl
all_unsent (n ∷ ns) w = ground (arith, all_unsent ns w.1)

-- All that is held is in the window.
in_window :
    (count : ℕ) (b : Buffer) → Filling count b → take (total b.nodes) (contents b) ≡ contents b
in_window count b v =
    subst (λ (n : ℕ). take n (contents b) ≡ contents b)
      (length-contents b
        ∙ v.used_is
        ∙ sym (total-IsWhole b.nodes v.whole ∙ ap (λ (n : ℕ). n * 1000) v.count_is))
      (take-length (contents b))

module _ (fl : Float) where
  open fl use {Double}

  -- tcpdc as it starts, with these blocks added.
  abbrev pub loaded : List ℕ → List (List ℕ) → Sender Double
  loaded ip blocks = record (start fl ip) { buffer = add_blocks blocks initialize }

  start_room : (ip : List ℕ) → free_count (start fl ip).packtimes ≡ 20
  unfolding start
  start_room ip = all_free 20 _ refl

  start_remote : (ip : List ℕ) → length ip ≡ 4 → length (start fl ip).remote ≡ 16
  unfolding start
  start_remote ip four =
      omega (arith, length-append ip (replicate 8 0), length-replicate {A = ℕ} 8 0)

  start_quiet : (ip : List ℕ) → to_troll (start fl ip).outbox ≡ []
  unfolding start to_troll
  start_quiet ip = refl

module _ (fl : Float) (sys : System) (never : (k : ℕ) → sys.refused k ≡ false) (refused : ℕ → Bool)
    (accepts : (k : ℕ) → refused k ≡ false) (stale : Stale) where
  open fl use {Double}

  -- If no send fails on either side, tcpdc starts with an address of four bytes, adds at most 20
  -- blocks of 1000 bytes and sends its window, each datagram comes to tcpds at least once, in any
  -- order and with any repetitions, and tcpds is new, then ftps, asking in sizes that make less
  -- than the blocks in all, is sent the bytes of the blocks, in order, cut into these sizes,
  -- after whatever acknowledgements went to the network.
  pub add_blocks-serve_requests :
      (ip : List ℕ) (blocks : List (List ℕ)) (d : Daemon SBuffer) (order sizes : List ℕ)
      → length ip ≡ 4
      → All (λ block. length block ≡ 1000) blocks
      → length blocks ≤ 20
      → d.store ≡ SBuffer.initialize
      → IsOrder (length blocks) order
      → All (λ size. size < 2 ^ 32) sizes
      → sum sizes < length blocks * 1000
      → (s' : Sender Double) × (send_window fl sys (loaded fl ip blocks) ≡ ok s')
        × (acks : List (Peer × List ℕ)) × (d' : Daemon SBuffer) × ((receive_datagrams refused stale
                (pick [] order (to_troll s'.outbox))
                d
              >>= λ d''. serve_requests refused sizes d'')
            ≡ ok d')
        × (d'.outbox ≡ (d.outbox ++ acks) ++ map to_ftps (cut sizes (joined blocks)))
        × ToNetwork acks
  add_blocks-serve_requests ip blocks d order sizes four whole few start o small less =
      let b = add_blocks blocks initialize in
      let (v, held) =
        add_blocks-Filling blocks 0 initialize initialize-Filling whole (omega arith) in
      let count : length b.nodes ≡ length blocks = v.count_is ∙ omega arith in
      let bytes : take (total b.nodes) (contents b) ≡ joined blocks =
        in_window (0 + length blocks) b v
        ∙ held
        ∙ ap (λ (l : List ℕ). l ++ joined blocks) nothing_held in
      let (s', sends, acks, d', runs, out, to) =
        send_window-serve_requests fl sys never refused accepts stale (loaded fl ip blocks) d order
          sizes (Filling-IsFresh (0 + length blocks) b v) (start_remote fl ip four)
          (omega (arith, all_unsent b.nodes v.whole, start_room fl ip, count)) (start_quiet fl ip)
          start (subst (λ (n : ℕ). IsOrder n order) (sym count) o) small
          (omega (arith, total-IsWhole b.nodes v.whole, count)) in
      (
        s',
        sends,
        acks,
        d',
        runs,
        out ∙ ap (λ (l : List ℕ). (d.outbox ++ acks) ++ map to_ftps (cut sizes l)) bytes,
        to,
      )
