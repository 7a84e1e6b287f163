-- ===== src/SBuffer/Exchange.antt =====
-- sbuffer.c where each packet is read before the next one comes.
use project.Base.{
  ℕ, ◌+◌, ◌-◌, ◌*◌, ◌≤◌, ◌≡◌, refl, ap, ◌∙◌, subst, List, [], ◌∷◌, arith, length, if◌then◌else◌,
  All, map, length-replicate, replicate, take, blit, ltb, length-blit,
}
use native.Mathlib.Decide.{dec_lt}
use project.Int.{pos, ◌+ℤ◌, ◌-ℤ◌}
use project.CBuffer.Ring.{ring_slice}
use project.SBuffer.{
  SBuffer, initialize, head_node, Run, returns, faults, ◌>>=◌, joins, blends, join_all, blend_all,
  closes, advance, absorb, merge_from, merge_list, packet_node, split_hole, fill, fill_beginning,
  write_packet, store, try_node, scan, add_data, read_packet, take_whole, request_data,
}
use project.SBuffer.Scan.{write_within}
use project.SBuffer.Window.{slice_same}
use project.SBuffer.Read.{read_within}
use project.SBuffer.Turn.{after, goes_in, put_between, read_between}

-- Where packet `n + 1` is written, it is read again.
write_packet-read_packet :
    (n : ℕ) (buf bytes : List ℕ)
    → n ≤ 64
    → length buf ≡ 64000
    → 1000 ≤ length bytes
    → (buf' : List ℕ) × (write_packet buf (pos (n * 1000)) 1000 bytes ≡ returns buf')
      × (length buf' ≡ 64000)
      × (read_packet buf' (pos (n * 1000)) 1000 1000 ≡ returns (take 1000 bytes))
write_packet-read_packet n buf bytes hi e fits = elim (dec_lt n 64) [
  | yes inside ↦
      let buf' = blit buf (n * 1000) (take 1000 bytes) in
      let len : length buf' ≡ 64000 = length-blit buf (n * 1000) (take 1000 bytes) ∙ e in
      let place : (n + 1 - 1) * 1000 ≡ n * 1000 = omega arith in
      (
        buf',
        write_within buf (n * 1000) bytes (omega arith),
        len,
        read_within buf' (n * 1000) 1000 1000 len (omega arith) (omega arith)
            ∙ ap (λ (x : List ℕ). returns x)
                (rw place at (slice_same buf bytes (n + 1) e (omega arith) (omega arith) fits)),
      )
  | no last ↦
      let at_end : n ≡ 64 = omega arith in
      let half = blit buf 64000 [] in
      let len : length half ≡ 64000 = length-blit buf 64000 [] ∙ e in
      let buf' = blit half 0 (take 1000 bytes) in
      let len' : length buf' ≡ 64000 = length-blit half 0 (take 1000 bytes) ∙ len in
      (
        buf',
        rw at_end (unfold write_packet in refl),
        len',
        rw at_end (
            unfold read_packet in
            ap (λ (x : List ℕ). returns x)
              (ring_slice buf' 0 1000 len' (omega arith)
                ∙ slice_same half bytes 1 len (omega arith) (omega arith) fits)),
      )
]

-- A packet comes, and a thousand bytes are asked for.
pub exchange : ℕ → List ℕ → SBuffer → Run (List ℕ × SBuffer)
exchange q bytes b = add_data q 1000 bytes b >>= λ o. request_data 1000 o.1

pub exchanges : ℕ → List (List ℕ) → SBuffer → Run (List (List ℕ) × SBuffer)
exchanges q [] b = returns ([], b)
exchanges q (bytes ∷ r) b =
    exchange q bytes b >>= λ o. exchanges (q + 1) r o.1 >>= λ o'. returns (o.0 ∷ o'.0, o'.1)

-- A buffer that stands where `n` packets came and were read.
pub data IsRound (n : ℕ) : SBuffer → Type 0 where
  stands :
      (last : ℕ) (buf : List ℕ) (e : ℕ)
      → n + 2 ≤ last
      → length buf ≡ 64000
      → IsRound n (after n last buf e)

exchange-IsRound :
    (n : ℕ) (bytes : List ℕ) (b : SBuffer)
    → 1 ≤ n
    → n ≤ 64
    → 1000 ≤ length bytes
    → IsRound n b
    → (b' : SBuffer) × (exchange (n + 1) bytes b ≡ returns (take 1000 bytes, b'))
      × IsRound (n + 1) b'
unfolding exchange
exchange-IsRound n bytes b lo hi fits (stands last buf e far len) =
    let (buf', writes, len', reads) = write_packet-read_packet n buf bytes hi len fits in
    (
      after (n + 1) 2147483647 buf' (if ltb e (n + 1) then n + 1 else e),
      rw (put_between n last lo (omega arith) far buf bytes e buf' writes)
          (read_between n last lo (omega arith) far buf' bytes e (take 1000 bytes) reads),
      stands 2147483647 buf' (if ltb e (n + 1) then n + 1 else e) (omega arith) len',
    )

first_at :
    (buf bytes : List ℕ)
    → let b : SBuffer = record { buffer = buf; ring = head_node ∷ []; dstart = 1; dend = 1 } in
      exchange 1 bytes b
      ≡ returns
          (take 1000 (blit buf 0 (take 1000 bytes)), after 1 64 (blit buf 0 (take 1000 bytes)) 1)
unfolding exchange add_data merge_list merge_from absorb join_all blend_all joins blends closes
    advance scan try_node fill fill_beginning split_hole packet_node store write_packet request_data
    take_whole read_packet ◌+ℤ◌ ◌-ℤ◌
first_at buf bytes = refl

first_exchange :
    (bytes : List ℕ)
    → 1000 ≤ length bytes
    → (b : SBuffer) × (exchange 1 bytes initialize ≡ returns (take 1000 bytes, b)) × IsRound 1 b
unfolding initialize
first_exchange bytes fits =
    let e : length start ≡ 64000 = length-replicate 64000 0 in
    let len : length new ≡ 64000 = length-blit start 0 (take 1000 bytes) ∙ e in
    (
      after 1 64 new 1,
      first_at start bytes
          ∙ ap (λ (x : List ℕ). returns (x, after 1 64 new 1))
              (ring_slice new 0 1000 len (omega arith)
                ∙ slice_same start bytes 1 e (omega arith) (omega arith) fits),
      stands 64 new 1 (omega arith) len,
    )
  where
    start : List ℕ
    start = replicate 64000 0

    new : List ℕ
    new = blit start 0 (take 1000 bytes)

abbrev pub AreFull : List (List ℕ) → Type 0
AreFull ps = All (λ bytes. 1000 ≤ length bytes) ps

exchanges-IsRound :
    (n : ℕ) (ps : List (List ℕ)) (b : SBuffer)
    → 1 ≤ n
    → n + length ps ≤ 65
    → AreFull ps
    → IsRound n b
    → (b' : SBuffer) × (exchanges (n + 1) ps b ≡ returns (map (take 1000) ps, b'))
      × IsRound (n + length ps) b'
unfolding exchanges
exchanges-IsRound n [] b lo hi full v = (b, refl, subst (λ (k : ℕ). IsRound k b) (omega arith) v)
exchanges-IsRound n (bytes ∷ ps) b lo hi full v =
    let (c, e, w) = exchange-IsRound n bytes b lo (omega arith) full.0 v in
    let (b', e', w') = exchanges-IsRound (n + 1) ps c (omega arith) (omega arith) full.1 w in
    (b', rw (e, e') refl, subst (λ (k : ℕ). IsRound k b') (omega arith) w')

-- Behind the end of the array.
add_data_faults : (bytes : List ℕ) (b : SBuffer) → IsRound 65 b → add_data 66 1000 bytes b ≡ faults
unfolding store split_hole packet_node write_packet
add_data_faults bytes b (stands last buf e far len) =
    goes_in 65 last (omega arith) (omega arith) far buf bytes e ∙ refl

-- If every packet is read before the next one comes, and asked for with a thousand bytes, the first
-- packets, up to 65 of them, are returned one by one, each the first 1000 bytes of what came; after
-- 65 packets any further one is written behind the end of the array.
pub exchanges-in_order :
    (ps : List (List ℕ)) (bytes : List ℕ)
    → length ps ≤ 65
    → AreFull ps
    → (b : SBuffer) × (exchanges 1 ps initialize ≡ returns (map (take 1000) ps, b))
      × (length ps ≡ 65 → add_data 66 1000 bytes b ≡ faults)
unfolding exchanges
exchanges-in_order [] bytes few full = (initialize, refl, λ e. absurd (omega arith))
exchanges-in_order (first ∷ ps) bytes few full =
    let (c, e, v) = first_exchange first full.0 in
    let (b, e', w) = exchanges-IsRound 1 ps c (omega arith) (omega arith) full.1 v in
    (
      b,
      rw (e) (rw e' refl),
      λ all. add_data_faults bytes b (subst (λ (k : ℕ). IsRound k b) (omega arith) w),
    )
