-- ===== src/Sender/Wire.antt =====
-- The packets of a window before and after `sendWindow` of cbuffer.c, and the datagrams between.
use project.Base.{ℕ, ◌+◌, List, [], ◌∷◌, ◌++◌, ltb, if◌then◌else◌}
use project.CBuffer.{PackNode, packet_bytes}
use project.CBuffer.Chain.{Chain}
use project.TimerClient.{starttimer}
use project.Sender.{Datagram, troll, timer, packet}

-- A packet after the call.
abbrev pub mark : PackNode → PackNode
mark n = if ltb 0 n.ack then n else record n { ack = 1 }

abbrev pub unsent_count : List PackNode → ℕ
unsent_count [] = 0
unsent_count (n ∷ r) = (if ltb 0 n.ack then 0 else 1) + unsent_count r

-- What goes out for a list: for each packet that is to be sent the packet itself, to the troll, and
-- the request of its timer, one second long.
abbrev pub wire : List ℕ → List ℕ → List PackNode → List Datagram
wire remote buf [] = []
wire remote buf (n ∷ r) =
    if ltb 0 n.ack
    then wire remote buf r
    else (troll, packet remote n.seqnum (packet_bytes buf n) n.size)
      ∷ ((timer, starttimer 1000 n.seqnum) ∷ wire remote buf r)

pub Chain-set :
    (s q a : ℕ) (pre post : List PackNode) (n : PackNode)
    → Chain s q (pre ++ (n ∷ post))
    → Chain s q (pre ++ (record n { ack = a } ∷ post))
Chain-set s q a [] post n c = c
Chain-set s q a (m ∷ pre) post n c =
    (c.0, c.1, c.2, c.3, Chain-set (s + m.size) (q + 1) a pre post n c.4)
