-- ===== src/SBuffer.antt =====
-- sbuffer.c: the server's buffer, which puts packets that arrive out of order into place. Printing
-- is left out.
-- The circular list is the list of its nodes from `head` on, so `head = head->next` moves the first
-- node to the end. A number `seqnum` or `size` is one that an `int` holds and that is not negative;
-- a negative `seqnum` finds no node, as one that is too large.
pub mod Results
pub mod Merge
pub mod Machine
pub mod Capacity
pub mod Tiles
pub mod Merging
pub mod Fill
pub mod Scan
pub mod Window
pub mod Deliver
pub mod Read
pub mod Turn
pub mod Exchange
pub mod Stuck
mod Tests
use project.Base.{
  ℕ, zero, suc, ◌+◌, ◌-◌, ◌*◌, Bool, true, false, not, ◌&&◌, ◌||◌, List, [], ◌∷◌, ◌++◌, ltb, ◌==◌,
  if◌then◌else◌, length, take, drop, blit, replicate, Option, none, some,
}
use project.Int.{ℤ, pos, negsuc, ◌+ℤ◌, ◌-ℤ◌, ltb_ℤ, leb_ℤ}

-- `struct cirNode`, less its link.
pub record CirNode : Type 0 where
  pub first_seq : ℕ
  pub last_seq : ℕ
  pub dat : ℤ
  pub size : ℤ
  pub filled : Bool

-- The globals that are used.
pub record SBuffer : Type 0 where
  pub buffer : List ℕ
  pub ring : List CirNode
  pub dstart : ℕ
  pub dend : ℕ

-- `endless` is a loop that never ends, `faults` an access outside an array or through a null pointer;
-- `unfinished` is a loop whose fuel has run out.
pub data Run (A : Type 0) : Type 0 where
  returns : A → Run A
  endless faults unfinished : Run A

infixl 5 ◌>>=◌
abbrev pub ◌>>=◌ : {A B : Type 0} → Run A → (A → Run B) → Run B
returns a >>= f = f a
endless >>= f = endless
faults >>= f = faults
unfinished >>= f = unfinished

-- The node that `initHead` makes.
abbrev pub head_node : CirNode
head_node = record { first_seq = 1; last_seq = 64; dat = pos 0; size = pos 64000; filled = false }

-- `initialize`, on the globals as they stand at the start.
pub initialize : SBuffer
initialize = record { buffer = replicate 64000 0; ring = head_node ∷ []; dstart = 1; dend = 1 }

-- A node that `mergeList` or `addData` looks at, those from `head` to it and those behind it.
pub record Cursor : Type 0 where
  pub front : List CirNode
  pub current : CirNode
  pub behind : List CirNode

abbrev pub nodes : Cursor → List CirNode
nodes k = k.front ++ (k.current ∷ k.behind)

abbrev pub same : Bool → Bool → Bool
same a b = if a then b else not b

-- The two tests of `mergeList` for a node and the one behind it.
pub joins : CirNode → CirNode → Bool
joins c n = (c.last_seq + 1 == n.first_seq) && same c.filled n.filled

pub blends : ℕ → CirNode → CirNode → Bool
blends dstart c n =
    not c.filled && not n.filled && (not (dstart == c.first_seq) && not (dstart == n.first_seq))

-- What a node becomes when it takes the next in.
pub join : CirNode → CirNode → CirNode
join c n = record c { last_seq = n.last_seq; size = c.size +ℤ n.size }

pub blend : CirNode → CirNode → CirNode
blend c n = record c { last_seq = 2147483647; size = c.size +ℤ n.size }

-- The two inner loops, as far as `head`.
pub join_all : CirNode → List CirNode → CirNode × List CirNode
join_all c [] = (c, [])
join_all c (n ∷ r) = if joins c n then join_all (join c n) r else (c, n ∷ r)

pub blend_all : ℕ → CirNode → List CirNode → CirNode × List CirNode
blend_all dstart c [] = (c, [])
blend_all dstart c (n ∷ r) =
    if blends dstart c n then blend_all dstart (blend c n) r else (c, n ∷ r)

-- The node behind the last one is `head`, which is the node itself if there is no other.
abbrev pub first_or : List CirNode → CirNode → CirNode
first_or [] c = c
first_or (h ∷ t) c = h

-- Whether an inner loop has come to `head` and goes on there.
pub closes : (CirNode → CirNode → Bool) → List CirNode → CirNode → List CirNode → Bool
closes test front c [] = test c (first_or front c)
closes test front c (n ∷ r) = false

-- `current = current->next`
pub advance : List CirNode → CirNode → List CirNode → Cursor
advance front c (n ∷ r) = record { front = front ++ (c ∷ []); current = n; behind = r }
advance [] c [] = record { front = []; current = c; behind = [] }
advance (h ∷ t) c [] = record { front = []; current = h; behind = t ++ (c ∷ []) }

-- One round of the outer loop. A loop that takes in `head` never ends: `head` has left the ring, so
-- no link leads to it, or the last node takes itself in again and again.
pub absorb : ℕ → Cursor → Run Cursor
absorb dstart k =
    let (c, r) = join_all k.current k.behind in
    let (c', r') = blend_all dstart c r in
    if closes joins k.front c r
    then endless
    else if closes (blends dstart) k.front c' r'
    then endless
    else returns (advance k.front c' r')

-- The outer loop.
pub merge_from : ℕ → ℕ → Cursor → Run (List CirNode)
merge_from zero dstart k = unfinished
merge_from (suc fuel) dstart k = elim k.behind [
  | [] ↦ returns (nodes k)
  | n ∷ r ↦ absorb dstart k >>= λ k'. merge_from fuel dstart k'
]

abbrev pub triangle : ℕ → ℕ
triangle zero = 0
triangle (suc n) = triangle n + suc n

-- `mergeList`
pub merge_list : ℕ → List CirNode → Run (List CirNode)
merge_list dstart [] = faults
merge_list dstart (h ∷ t) =
    merge_from (triangle (suc (suc (length t)))) dstart
      (record { front = []; current = h; behind = t })

-- The wrapped place `d` of a new node.
pub wrap : ℤ → ℤ
wrap d = if ltb_ℤ (pos 64000) d then d -ℤ pos 64000 else d

-- The node for a packet.
pub packet_node : ℕ → ℕ → ℤ → CirNode
packet_node seqnum size d = record {
  first_seq = seqnum;
  last_seq = seqnum;
  dat = d;
  size = pos size;
  filled = true;
}

-- The branch for the beginning of a hole: a packet that leaves some of it, and one that fills it.
pub split_hole : ℕ → ℕ → CirNode → Cursor
split_hole seqnum size c =
    let node : CirNode = record c {
      first_seq = seqnum + 1;
      size = c.size -ℤ pos size;
      dat = c.dat +ℤ pos size;
      filled = false;
    } in
    record { front = []; current = packet_node seqnum size c.dat; behind = node ∷ [] }

pub fill_hole : ℕ → ℕ → CirNode → Cursor
fill_hole seqnum size c = record {
  front = [];
  current = packet_node seqnum size c.dat;
  behind = [];
}

pub fill_beginning : ℕ → ℕ → CirNode → Option Cursor
fill_beginning seqnum size c =
    if ltb_ℤ (pos size) c.size
    then some (split_hole seqnum size c)
    else if leb_ℤ (pos size) c.size
    then some (fill_hole seqnum size c)
    else none

-- The branch for the middle of a hole.
pub fill_middle : ℕ → ℕ → CirNode → Cursor
fill_middle seqnum size c =
    let c' : CirNode = record c {
      last_seq = seqnum - 1;
      size = pos ((seqnum - 1 + 1 - c.first_seq) * 1000);
    } in
    let node_a = packet_node seqnum size (wrap (c.dat +ℤ c'.size)) in
    let node_b : CirNode = record {
      first_seq = seqnum + 1;
      last_seq = c.last_seq;
      dat = wrap (node_a.dat +ℤ pos size);
      size = c.size -ℤ (c'.size +ℤ pos size);
      filled = false;
    } in
    record { front = c' ∷ []; current = node_a; behind = node_b ∷ [] }

-- The branch for the end of a hole.
pub fill_end : ℕ → ℕ → CirNode → Cursor
fill_end seqnum size c = record {
  front = record c { size = c.size -ℤ pos size; last_seq = seqnum - 1 } ∷ [];
  current = packet_node seqnum size (wrap (c.dat +ℤ c.size -ℤ pos size));
  behind = [];
}

-- What a node becomes that is not filled: the packet's node and what is left of the hole, or `none`
-- if it stays as it is.
pub fill : ℕ → ℕ → CirNode → Option Cursor
fill seqnum size c =
    if c.first_seq == seqnum
    then fill_beginning seqnum size c
    else if ltb c.first_seq seqnum && ltb seqnum c.last_seq
    then some (fill_middle seqnum size c)
    else if ltb c.first_seq seqnum && (c.last_seq == seqnum)
    then some (fill_end seqnum size c)
    else none

-- The `memcpy`s into the buffer for a packet's node at place `d`, which has the packet's size.
pub write_packet : List ℕ → ℤ → ℕ → List ℕ → Run (List ℕ)
write_packet buf (negsuc n) size bytes = faults
write_packet buf (pos d) size bytes =
    let ahead = 64000 - d in
    if ltb 64000 (d + size)
    then (if ltb 64000 d || ltb 64000 (size - ahead)
        then faults
        else returns
            (blit (blit buf d (take ahead bytes)) 0 (take (size - ahead) (drop ahead bytes))))
    else returns (blit buf d (take size bytes))

-- What `addData` does once a node is filled.
pub store : ℕ → ℕ → List ℕ → SBuffer → List CirNode → Cursor → List CirNode → Run (ℕ × SBuffer)
store seqnum size bytes b front k behind =
    write_packet b.buffer k.current.dat size bytes >>= λ buffer'.
    merge_list b.dstart (front ++ (nodes k ++ behind)) >>= λ ring'. returns (
      1,
      record b {
        buffer = buffer';
        ring = ring';
        dend = if ltb b.dend seqnum then seqnum else b.dend;
      },
    )

-- The tests of one round of `addData`: whether the packet is a duplicate, whether it is out of range,
-- whether the node is filled, and what becomes of the node otherwise. `on` goes on behind the node.
pub try_node :
    Bool
    → Bool
    → Bool
    → Option Cursor
    → SBuffer
    → Run (ℕ × SBuffer)
    → (Cursor → Run (ℕ × SBuffer))
    → Run (ℕ × SBuffer)
try_node duplicate far filled fills b on put =
    if duplicate
    then returns (1, b)
    else if far
    then returns (0, b)
    else if filled
    then on
    else elim fills [ none ↦ on | some k ↦ put k ]

-- The loop of `addData` over the nodes, of which it has passed `front`.
pub scan : ℕ → ℕ → List ℕ → SBuffer → List CirNode → List CirNode → Run (ℕ × SBuffer)
scan seqnum size bytes b front [] = returns (0, b)
scan seqnum size bytes b front (c ∷ r) =
    try_node ((c.first_seq == seqnum) && c.filled) (ltb (b.dstart + 63) seqnum) c.filled
      (fill seqnum size c) b (scan seqnum size bytes b (front ++ (c ∷ [])) r)
      λ k. store seqnum size bytes b front k r

-- `addData`
pub add_data : ℕ → ℕ → List ℕ → SBuffer → Run (ℕ × SBuffer)
add_data seqnum size bytes b = merge_list b.dstart b.ring >>= λ ring'.
    scan seqnum size bytes (record b { ring = ring' }) [] ring'

-- `getSize`
pub get_size : SBuffer → Run ℤ
get_size b = elim b.ring [ [] ↦ faults | h ∷ t ↦ returns (if h.filled then h.size else pos 0) ]

-- The `memcpy`s of `amount` bytes out of a node of `size` bytes at place `d`.
pub read_packet : List ℕ → ℤ → ℕ → ℕ → Run (List ℕ)
read_packet buf (negsuc n) size amount = faults
read_packet buf (pos d) size amount =
    let ahead = 64000 - d in
    if ltb 64000 (size + d)
    then (if ltb 64000 d || (ltb amount ahead || ltb 64000 (amount - ahead))
        then faults
        else returns (take ahead (drop d buf) ++ take (amount - ahead) buf))
    else returns (take amount (drop d buf))

-- The read of a whole node, which a negative size makes a fault.
pub take_whole : SBuffer → CirNode → List CirNode → ℤ → Run (List ℕ × SBuffer)
take_whole b h t (negsuc n) = faults
take_whole b h t (pos size) = read_packet b.buffer h.dat size size >>= λ bytes.
    let dstart' = h.last_seq + 1 in
    merge_list dstart' (t ++ (record h { filled = false } ∷ [])) >>= λ ring'.
    returns (bytes, record b { ring = ring'; dstart = dstart' })

-- The read of the first `size` bytes of a node that has `more`.
pub take_part : ℕ → SBuffer → CirNode → List CirNode → ℤ → Run (List ℕ × SBuffer)
take_part size b h t (negsuc n) = faults
take_part size b h t (pos more) = read_packet b.buffer h.dat more size >>= λ bytes. returns (
  bytes,
  record b { ring = record h { dat = h.dat +ℤ pos size; size = pos more -ℤ pos size } ∷ t },
)

-- `requestData`: the bytes that it copies, of which it returns the number.
pub request_data : ℕ → SBuffer → Run (List ℕ × SBuffer)
request_data size b = elim b.ring [
  | [] ↦ faults
  | h ∷ t ↦
      if h.filled && (h.first_seq == b.dstart)
      then (if leb_ℤ h.size (pos size)
          then take_whole b h t h.size
          else take_part size b h t h.size)
      else returns ([], b)
]
