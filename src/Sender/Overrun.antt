-- ===== src/Sender/Overrun.antt =====
-- The search of cbuffer.c over `packtimes` for a free slot, where there is none.
use project.Base.{
  ℕ, suc, ◌+◌, ◌<◌, ◌≡◌, ◌≢◌, refl, sym, ap, ◌∙◌, false, none, some, List, [], ◌∷◌, ◌++◌,
  append_assoc, arith, length, length-append, get_elem?, All, ltb, Bool-cases, inl, inr,
}
use native.Mathlib.Decide.{dec_lt}
use project.CBuffer.{PackNode, packet_bytes, request_size, request_data}
use project.CBuffer.Chain.{Chain}
use project.CBuffer.Packets.{request_size_found, request_data_found, numbers_below}
use project.Sender.{Sender, fault, ◌>>=◌, free_slot, System, send_packet, send_from, send_window}
use project.Sender.Rtt.{Float}
use project.Sender.Slots.{free_count, free_slot-none, take_slot, get_elem?-middle}
use project.Sender.Wire.{unsent_count}
use project.Sender.Send.{
  after_one, one_nodes, one_step, one_slot, one-Chain, send_from_skip, send_from_send,
}

module _ (fl : Float) (sys : System) where
  open fl use {Double}

  no_slot :
      (pre post : List PackNode) (n : PackNode) (s : Sender Double)
      → s.buffer.nodes ≡ pre ++ (n ∷ post)
      → All (λ m. m.seqnum ≢ n.seqnum) pre
      → free_slot s.packtimes ≡ none
      → send_packet fl sys (length pre) n s ≡ fault
  unfolding send_packet
  no_slot pre post n s at fresh none_free = rw (size, bytes, none_free)
    where
      size : request_size n.seqnum s.buffer.nodes ≡ (n.size, pre ++ (record n { ack = 1 } ∷ post))
      size = ap (request_size n.seqnum) at ∙ request_size_found pre post n fresh

      bytes : request_data s.buffer.cirbuffer n.seqnum (pre ++ (record n { ack = 1 } ∷ post)) ≡ (
        some (packet_bytes s.buffer.cirbuffer (record n { ack = 1 })),
        pre ++ (record n { ack = 1 } ∷ post),
      )
      bytes = request_data_found s.buffer.cirbuffer pre post (record n { ack = 1 }) fresh

  send_from_fault :
      (left i : ℕ) (n : PackNode) (s : Sender Double)
      → get_elem? s.buffer.nodes i ≡ some n
      → ltb 0 n.ack ≡ false
      → send_packet fl sys i n s ≡ fault
      → send_from fl sys (suc left) i s ≡ fault
  unfolding send_from
  send_from_fault left i n s find new step =
      rw (find, send_from) (rw (new, send_from) (rw (step, ◌>>=◌)))

  module _ (never : (k : ℕ) → sys.refused k ≡ false) where
    send_from_overrun :
        (pre post : List PackNode) (s : Sender Double) (q : ℕ)
        → s.buffer.nodes ≡ pre ++ post
        → Chain s.buffer.dstart q (pre ++ post)
        → free_count s.packtimes < unsent_count post
        → send_from fl sys (length post) (length pre) s ≡ fault
    send_from_overrun pre [] s q at c few = absurd (omega arith)
    send_from_overrun pre (n ∷ post) s q at c few =
        let find =
          ap (λ (t : List PackNode). get_elem? t (length pre)) at ∙ get_elem?-middle pre post n in
        let fresh = (numbers_below s.buffer.dstart q pre post n c).1 in
        elim (Bool-cases (ltb 0 n.ack)) [
          | inl old ↦
              let e = append_assoc pre (n ∷ []) post in
              let l : length pre + 1 ≡ length (pre ++ (n ∷ [])) =
                omega (arith, length-append pre (n ∷ [])) in
              send_from_skip fl sys never (length post) (length pre) n s find old
              ∙ rw l (
                  send_from_overrun (pre ++ (n ∷ [])) post s q (at ∙ sym e) (rw e c) (ground arith))
          | inr new ↦ elim (dec_lt 0 (free_count s.packtimes)) [
            | yes some_free ↦
                let t = take_slot s.packtimes some_free in
                let step = one_step fl sys never pre post n s t.slot at fresh t.found in
                let left = one_slot fl sys never pre post n s t in
                let sent_n : PackNode = record n { ack = 1 } in
                let l : length pre + 1 ≡ length (pre ++ (sent_n ∷ [])) =
                  omega (arith, length-append pre (sent_n ∷ [])) in
                send_from_send fl sys never (length post) (length pre) n s _ find new step
                ∙ rw l (
                    send_from_overrun (pre ++ (sent_n ∷ [])) post
                      (after_one fl sys never t.slot pre post n s) q
                      (one_nodes fl sys never t.slot pre post n s)
                      (one-Chain fl sys never t.slot q pre post n s c) (ground arith))
            | no none_free ↦
                send_from_fault (length post) (length pre) n s find new
                  (no_slot pre post n s at fresh (free_slot-none s.packtimes (omega arith)))
          ]
        ]

    -- If no send fails and the packets are consecutive, `sendWindow` with more packets to send
    -- than free slots reads behind `packtimes`.
    pub send_window_overrun :
        (s : Sender Double) (q : ℕ)
        → Chain s.buffer.dstart q s.buffer.nodes
        → free_count s.packtimes < unsent_count s.buffer.nodes
        → send_window fl sys s ≡ fault
    unfolding send_window
    send_window_overrun s q c few = send_from_overrun [] s.buffer.nodes s q refl c few
