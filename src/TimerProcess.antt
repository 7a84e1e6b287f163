-- ===== src/TimerProcess.antt =====
-- timerprocess.c: the delta list of timers and the loop that serves it. Printing is left out.
-- The times of requests and the readings of the clock are whole milliseconds. A `double` of seconds
-- that is computed from them is taken exactly, in milliseconds; in C it differs from that by rounding
-- errors far below a millisecond, so that a comparison of a computed value comes out as here unless
-- the exact values are equal. What it comes to then is an argument, `ties`; the tests of a request's
-- time against the head's and of `elapse` against 0 and the whole seconds of a delta are taken
-- exactly. The list is doubly linked in C: here it is the nodes from `head` to `tail`, and the cursor
-- that `insertValue` walks with is the nodes in front of it, its node and those behind.
pub mod Ties
pub mod Schedule
pub mod Insert
pub mod Head
pub mod Last
pub mod Gap
pub mod Remove
pub mod Fire
pub mod Requests
pub mod Alone
pub mod Setup
mod Tests
use project.Base.{
  ℕ, zero, suc, ◌+◌, ◌-◌, ◌*◌, ◌/◌, Bool, true, false, List, [], ◌∷◌, ◌++◌, ◌==◌, if◌then◌else◌,
  length, Option, none, some,
}
use project.Int.{ℤ, pos, negsuc, ◌+ℤ◌, ◌-ℤ◌, ltb_ℤ, leb_ℤ, pos_part, neg_part, sub_ℕ}
use project.Words.{be32, read_be32}
use project.Outcome.{Outcome, ok, ◌>>=◌}

-- `struct listnode`, less its links. `dtime` counts from the node in front.
pub record ListNode : Type 0 where
  pub dtime : ℤ
  pub port : ℕ
  pub byte_seq_num : ℕ

abbrev pub eq_ℤ : ℤ → ℤ → Bool
eq_ℤ a b = (pos_part a + neg_part b) == (pos_part b + neg_part a)

-- The tests `<` and `<=` of a computed value, which differ at most where the two values are equal up
-- to rounding: `tie` says what they come to there; and the test `==`.
pub before : Bool → ℤ → ℤ → Bool
before tie a b = if eq_ℤ a b then tie else ltb_ℤ a b

pub meets : Bool → ℤ → ℤ → Bool
meets tie a b = if eq_ℤ a b then tie else false

-- `current`, what is in front of it and behind it, and `elapse`.
pub record Cursor : Type 0 where
  pub front : List ListNode
  pub current : ListNode
  pub behind : List ListNode
  pub elapse : ℤ

-- The `while` loop of `insertValue`. Its test at a node takes the tie of the number of nodes from it
-- to the tail.
pub walk : (ℕ → Bool) → ℤ → ℤ → List ListNode → ListNode → List ListNode → Cursor
walk ties dtime elapse front current [] =
    let on = before (ties 1) (elapse +ℤ current.dtime) dtime in
    let elapse' = if on then elapse +ℤ current.dtime else elapse in
    record { front = front; current = current; behind = []; elapse = elapse' }
walk ties dtime elapse front current (n ∷ r) =
    let later = walk ties dtime (elapse +ℤ current.dtime) (front ++ (current ∷ [])) n r in
    if before (ties (length r + 2)) (elapse +ℤ current.dtime) dtime
    then later
    else record { front = front; current = current; behind = n ∷ r; elapse = elapse }

-- The special cases in front of the loop, and the loop.
pub locate : (ℕ → Bool) → ℤ → ListNode → List ListNode → Cursor
locate ties dtime head [] = record {
  front = [];
  current = head;
  behind = [];
  elapse = if eq_ℤ dtime head.dtime then dtime else pos 0;
}
locate ties dtime head (n ∷ r) =
    if eq_ℤ dtime head.dtime
    then record { front = []; current = head; behind = n ∷ r; elapse = dtime }
    else walk ties dtime (pos 0) [] head (n ∷ r)

-- The node in front of others, the first of which counts from it.
pub link : ListNode → List ListNode → List ListNode
link node [] = node ∷ []
link node (n ∷ r) = node ∷ (record n { dtime = n.dtime -ℤ node.dtime } ∷ r)

-- The branches that put the node into the list, for a time behind that of the head. `tie` is that of
-- the test at the tail.
pub place : Bool → ℤ → ℕ → ℕ → Cursor → List ListNode
place tie dtime port bsn c =
    let node : ListNode = record { dtime = dtime -ℤ c.elapse; port = port; byte_seq_num = bsn } in
    let far : ListNode =
      if eq_ℤ c.elapse (pos 0) then record node { dtime = dtime -ℤ c.current.dtime } else node in
    elim c.behind [
      | n ∷ r ↦ c.front ++ (c.current ∷ link node (n ∷ r))
      | [] ↦
          if before tie (c.elapse +ℤ c.current.dtime) dtime
          then c.front ++ (c.current ∷ (far ∷ []))
          else c.front ++ link node (c.current ∷ [])
    ]

-- `insertValue`
pub insert_value : (ℕ → Bool) → ℤ → ℕ → ℕ → List ListNode → List ListNode
insert_value ties dtime port bsn [] = record { dtime = dtime; port = port; byte_seq_num = bsn } ∷ []
insert_value ties dtime port bsn (head ∷ r) =
    let c = locate ties dtime head r in
    let node : ListNode = record { dtime = dtime -ℤ c.elapse; port = port; byte_seq_num = bsn } in
    if leb_ℤ dtime head.dtime
    then link node (c.current ∷ c.behind)
    else place (ties 0) dtime port bsn c

-- A `double` of seconds as an `int`: the whole seconds, towards 0.
pub whole_seconds : ℤ → ℤ
whole_seconds ms = sub_ℕ (pos_part ms / 1000 * 1000) (neg_part ms / 1000 * 1000)

-- `removeValue` and its result
pub remove_value : ℕ → List ListNode → ℤ × List ListNode
remove_value bsn [] = (pos 0, [])
remove_value bsn (n ∷ []) = if n.byte_seq_num == bsn then (pos 0, []) else (negsuc 0, n ∷ [])
remove_value bsn (n ∷ (m ∷ r)) =
    let (result, rest) = remove_value bsn (m ∷ r) in
    if n.byte_seq_num == bsn
    then (pos 0, record m { dtime = m.dtime +ℤ whole_seconds n.dtime } ∷ r)
    else (result, n ∷ rest)

-- `expiration`: the bytes that it sends.
unfoldable pub expiration : ℕ → List ℕ
expiration bsn = be32 bsn

-- The `while` loop of `decrement`, on a list that starts with `head`: `removeValue` finds the head at
-- once, takes it off and adds its whole seconds to the next node.
pub fire : (ℕ → Bool) → ListNode → List ListNode → List (List ℕ) × List ListNode
fire ties head [] =
    if before (ties 1) head.dtime (pos 0)
    then (expiration head.byte_seq_num ∷ [], (remove_value head.byte_seq_num (head ∷ [])).1)
    else ([], head ∷ [])
fire ties head (n ∷ r) =
    let n' : ListNode = record n { dtime = n.dtime +ℤ head.dtime } in
    let again : ListNode = record n' { dtime = n'.dtime +ℤ whole_seconds head.dtime } in
    let (sent, rest) = fire ties again r in
    if before (ties (length r + 2)) head.dtime (pos 0)
    then (expiration head.byte_seq_num ∷ sent, rest)
    else ([], head ∷ (n ∷ r))

-- `decrement`, with the reading of the clock; it returns `now`. The test for 0 takes the tie 0.
pub decrement : (ℕ → Bool) → ℤ → ℤ → List ListNode → List (List ℕ) × List ListNode
decrement ties now prev [] = ([], [])
decrement ties now prev (h ∷ r) =
    let head : ListNode = record h { dtime = h.dtime -ℤ (now -ℤ prev) } in
    if meets (ties 0) head.dtime (pos 0)
    then (expiration head.byte_seq_num ∷ [], (remove_value head.byte_seq_num (head ∷ r)).1)
    else if before (ties (length r + 1)) head.dtime (pos 0)
    then fire ties head r
    else ([], head ∷ r)

-- What C leaves open in one round: the ties in the insertion for each request and in `decrement`, and
-- what comes of a request whose last four bytes are written behind `temp`: that may change what the
-- request does to the list, end the loop or the program. That it changes the counters of the loop is
-- left out.
pub record Unknown : Type 0 where
  pub inserting : ℕ → ℕ → Bool
  pub passing : ℕ → Bool
  pub overrun : ℕ → Bool × List ListNode → Outcome (Bool × List ListNode)

-- One request: the flag, the number, the seconds and the milliseconds from place 4 * y of the
-- buffer. The flag says whether it is the quit request. The counter of `temp` starts again at the
-- ninth and the thirteenth byte for a start request only: for others the last four bytes are written
-- behind its end.
pub serve : Unknown → List ℕ → ℕ → List ListNode → Outcome (Bool × List ListNode)
serve u buf y nodes =
    let flag = read_be32 buf (y * 4) in
    let byte = read_be32 buf (y * 4 + 4) in
    let itime = read_be32 buf (y * 4 + 8) in
    let dtime = read_be32 buf (y * 4 + 12) in
    if flag == 1
    then ok (false, insert_value (u.inserting y) (pos (itime * 1000 + dtime)) 0 byte nodes)
    else if flag == 2
    then u.overrun y (false, (remove_value byte nodes).1)
    else u.overrun y (flag == 3, nodes)

-- The loop over the requests of one datagram: request `y` is read from place 4 * y. The quit request
-- only leaves this loop.
pub serve_all : Unknown → List ℕ → ℕ → ℕ → List ListNode → Outcome (List ListNode)
serve_all u buf y zero nodes = ok nodes
serve_all u buf y (suc left) nodes = serve u buf y nodes >>= λ o.
    let rest = serve_all u buf (y + 1) left o.1 in if o.0 then ok o.1 else rest

-- A datagram that `RECV` has put into the buffer of 320 bytes.
pub receive : Unknown → List ℕ → List ListNode → Outcome (List ListNode)
receive u datagram nodes = serve_all u datagram 0 (length datagram / 16) nodes

pub record TimerProcess : Type 0 where
  pub nodes : List ListNode
  pub prev : ℤ
  pub notices : List (List ℕ)

-- The test of `FD_ISSET`.
pub take_in : Unknown → Option (List ℕ) → List ListNode → Outcome (List ListNode)
take_in u none nodes = ok nodes
take_in u (some datagram) nodes = receive u datagram nodes

-- One round of `main`: `select` came back with a datagram or without one, and the clock shows `now`.
pub round : Unknown → Option (List ℕ) → ℤ → TimerProcess → Outcome TimerProcess
round u arrived now t = take_in u arrived t.nodes >>= λ taken.
    let (sent, nodes') = decrement u.passing now t.prev taken in
    ok (record { nodes = nodes'; prev = now; notices = t.notices ++ sent })
