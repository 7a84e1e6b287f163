-- ===== src/CBuffer.antt =====
-- cbuffer.c: the client's circular buffer and the list of packets of its send window.
-- The globals are the fields of a `Buffer`. `head` is a dummy node, so the list is what follows it;
-- no other pointer into it outlives a call. Printing is left out.
-- Positions and sizes are never negative in C; where `disttowindow` may fall below 0, only
-- `disttowindow > 0` is tested, and truncated subtraction answers that alike.
pub mod Space
pub mod Ring
pub mod Chain
pub mod Shorten
pub mod Grow
pub mod Invariant
pub mod Renew
pub mod Add
pub mod Packets
pub mod Stale
mod Tests
use project.Base.{
  ℕ, zero, suc, ◌+◌, ◌-◌, ◌%◌, Bool, true, false, Option, none, some, List, [], ◌∷◌, ◌++◌, ltb, leb,
  ◌==◌, if◌then◌else◌, take, drop, blit, replicate,
}

-- `struct packNode`, less its `next`. `ack` is 0 (to send), 1 (sent) or 2 (acknowledged).
pub record PackNode : Type 0 where
  pub seqnum : ℕ
  pub dat : ℕ
  pub size : ℕ
  pub ack : ℕ

pub record Buffer : Type 0 where
  pub cirbuffer : List ℕ
  pub nodes : List PackNode
  pub dstart : ℕ
  pub dend : ℕ
  pub windowend : ℕ
  pub packseq : ℕ
  pub is_empty : Bool

-- `newPackNode`
abbrev pub new_pack_node : ℕ → ℕ → ℕ → PackNode
new_pack_node dat siz seq = record { seqnum = seq; dat = dat; size = siz; ack = 0 }

-- The globals as they start, with the list that `initialize` makes.
abbrev pub initialize : Buffer
initialize = record {
  cirbuffer = replicate 64000 0;
  nodes = [];
  dstart = 0;
  dend = 0;
  windowend = 0;
  packseq = 1;
  is_empty = true;
}

abbrev pub min : ℕ → ℕ → ℕ
min a b = if ltb a b then a else b

-- `spaceLeft`, with its writes to `isEmpty`
unfoldable pub space_left : Buffer → ℕ × Buffer
space_left b =
    if ltb b.dend b.dstart
    then (b.dstart - b.dend, record b { is_empty = false })
    else if ltb b.dstart b.dend
    then (64000 - (b.dend - b.dstart), record b { is_empty = false })
    else if b.is_empty
    then (64000, b)
    else (0, b)

-- `isFull`
pub is_full : Buffer → Bool × Buffer
is_full b = let (space, b') = space_left b in (space == 0, b')

-- `checkWindow`, first loop: the acknowledged packets at the front of the list are freed.
unfoldable pub free_acked : ℕ → Bool → List PackNode → ℕ × Bool × List PackNode
free_acked dstart e [] = (dstart, e, [])
free_acked dstart e (n ∷ []) =
    if n.ack == 2 then ((dstart + n.size) % 64000, true, []) else (dstart, e, n ∷ [])
free_acked dstart e (n ∷ (m ∷ r)) =
    if n.ack == 2
    then free_acked ((dstart + n.size) % 64000) e (m ∷ r)
    else (dstart, e, n ∷ (m ∷ r))

unfoldable pub advance : Buffer → Buffer
advance b =
    let (dstart', e, nodes') = free_acked b.dstart b.is_empty b.nodes in
    record b { dstart = dstart'; is_empty = e; nodes = nodes' }

-- The new `windowend`: at most 20000 bytes past `dstart`, and not past the data.
unfoldable pub move_window : Buffer → Buffer
move_window b =
    let (space, b') = space_left b in
    if leb 20000 (64000 - space)
    then record b' { windowend = (b'.dstart + 20000) % 64000 }
    else let (space', b'') = space_left b' in
      record b'' { windowend = (64000 - space' + b''.dstart) % 64000 }

-- `disttowindow`
unfoldable pub distance : Buffer → ℕ
distance b =
    if ltb b.dstart b.windowend
    then b.windowend - b.dstart
    else if ltb b.windowend b.dstart
    then 64000 - b.dstart + b.windowend
    else 0

-- The last loop: packets of at most 1000 bytes behind `current`, until the window is covered.
-- Each round takes at least one byte off `disttowindow`, so that number is fuel enough.
unfoldable pub grow : ℕ → PackNode → ℕ → ℕ → List PackNode × ℕ
grow zero current dist packseq = ([], packseq)
grow (suc fuel) current dist packseq = elim (ltb 0 dist) [
  | true ↦
      let mini = min 1000 dist in
      let node = new_pack_node ((current.dat + current.size) % 64000) mini packseq in
      let (rest, packseq') = grow fuel node (dist - mini) (packseq + 1) in (node ∷ rest, packseq')
  | false ↦ ([], packseq)
]

-- The walk to the last node, with the distance that the nodes passed leave.
unfoldable pub cover : ℕ → ℕ → PackNode → List PackNode → List PackNode × ℕ
cover dist packseq current [] =
    let left = dist - current.size in
    let (rest, packseq') = grow left current left packseq in (current ∷ rest, packseq')
cover dist packseq current (n ∷ r) =
    let (rest, packseq') = cover (dist - current.size) packseq n r in (current ∷ rest, packseq')

-- The packets for a window of `dist` bytes: an empty list gets its first packet at `dstart`.
unfoldable pub fill : ℕ → ℕ → ℕ → List PackNode → List PackNode × ℕ
fill dist dstart packseq [] =
    let mini = min 1000 dist in
    let node = new_pack_node dstart mini packseq in
    let (rest, packseq') = grow (dist - mini) node (dist - mini) (packseq + 1) in
    (node ∷ rest, packseq')
fill dist dstart packseq (n ∷ r) = cover dist packseq n r

unfoldable pub fill_window : Buffer → ℕ → Buffer
fill_window b dist =
    let (nodes', packseq') = fill dist b.dstart b.packseq b.nodes in
    if ltb 0 dist then record b { nodes = nodes'; packseq = packseq' } else b

-- `checkWindow`
unfoldable pub check_window : Buffer → Buffer
check_window b = let b' = move_window (advance b) in fill_window b' (distance b')

-- The writes of `addData` once there is room; `memcpy` reads `size` bytes of `data`.
unfoldable pub write_data : Buffer → List ℕ → ℕ → Buffer
write_data b bytes size =
    let tail = 64000 - b.dend in
    if leb size tail
    then record b { cirbuffer = blit b.cirbuffer b.dend (take size bytes); dend = b.dend + size }
    else record b {
      cirbuffer =
          blit (blit b.cirbuffer b.dend (take tail bytes)) 0 (take (size - tail) (drop tail bytes));
      dend = size - tail;
    }

-- `addData`
unfoldable pub add_data : Buffer → List ℕ → ℕ → ℕ × Buffer
add_data b bytes size =
    let (space, b') = space_left b in
    if leb size space
    then (1, check_window (record (write_data b' bytes size) { is_empty = false }))
    else (0, check_window b')

-- The search of `requestSize`, with the mark that it leaves.
unfoldable pub request_size : ℕ → List PackNode → ℕ × List PackNode
request_size num [] = (0, [])
request_size num (n ∷ r) =
    let (size, r') = request_size num r in
    if n.seqnum == num then (n.size, record n { ack = 1 } ∷ r) else (size, n ∷ r')

-- What `requestData` copies for one packet.
pub packet_bytes : List ℕ → PackNode → List ℕ
packet_bytes cirbuffer n =
    if ltb 64000 (n.size + n.dat)
    then take (64000 - n.dat) (drop n.dat cirbuffer) ++ take (n.size - (64000 - n.dat)) cirbuffer
    else take n.size (drop n.dat cirbuffer)

-- `requestData`; `none` where it copies nothing.
unfoldable pub request_data : List ℕ → ℕ → List PackNode → Option (List ℕ) × List PackNode
request_data cirbuffer num [] = (none, [])
request_data cirbuffer num (n ∷ r) =
    let (found, r') = request_data cirbuffer num r in
    if n.seqnum == num
    then (some (packet_bytes cirbuffer n), record n { ack = 1 } ∷ r)
    else (found, n ∷ r')
