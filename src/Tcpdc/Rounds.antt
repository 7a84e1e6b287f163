-- ===== src/Tcpdc/Rounds.antt =====
-- The loop of tcpdc.c: calls of `receiveAndSend` one after the other.
use project.Base.{
  ℕ, ◌+◌, ◌<◌, ◌≡◌, refl, sym, ◌∙◌, subst, false, none, some, Option, List, [], ◌++◌, length, zero,
  suc,
}
use project.CBuffer.Ring.{contents, contents-initialize}
use project.CBuffer.Invariant.{IsValid, initialize-IsValid}
use project.Words.{read_le32, read_be32}
use project.Sender.{Sender, ok, System, start, recv_ack, send_window}
use project.Sender.Rtt.{Float}
use project.Outcome.{Leaves, bind-Leaves}
use project.Sender.Held.{Holds}
use project.Sender.Keeps.{Kept, send_window-Kept, recv_ack-Kept, timer_expire-Kept}
use project.Tcpdc.{
  Client, take_block, take_acks, take_notices, from_network, from_timer, receive_and_send,
}
use project.Tcpdc.Take.{Fits, new_bytes, Holding, take_block-Holding}

module _ (fl : Float) (sys : System) where
  open fl use {Double}

  -- The daemon after some rounds, in which its buffer took the bytes `given`. The array on the stack
  -- holds anything; the data do not end with the buffer's array.
  pub data Reach : List ℕ → Client Double → Type 0 where
    started :
        (ip : List ℕ) → Reach [] (record { sender = start fl ip; temp_stored = false; bread = 0 })
    round :
        {given : List ℕ} {c c' : Client Double}
        → Reach given c
        → (temp : List ℕ) (block acks notices : Option (List ℕ)) → length temp ≡ 1000
        → Fits block
        → (take_block fl sys temp block c).sender.buffer.dend < 64000
        → receive_and_send fl sys temp block acks notices c ≡ ok c'
        → Reach (given ++ new_bytes fl sys temp block c) c'

  -- The rest of a round, with the network and the timer process.
  module _ (given : List ℕ) where
    take_acks-Kept :
        (buffer : List ℕ) (nums at : ℕ) (s : Sender Double)
        → Kept fl sys given s
        → Leaves (Kept fl sys given) (take_acks fl sys buffer nums at s)
    unfolding take_acks
    take_acks-Kept buffer zero at s h = h
    take_acks-Kept buffer (suc nums) at s h =
        bind-Leaves (λ (r : ℕ × Sender Double). Kept fl sys given r.1) (Kept fl sys given)
          (recv_ack fl sys (read_le32 buffer (16 + at)) s) _
          (recv_ack-Kept fl sys given (read_le32 buffer (16 + at)) s h)
          (λ r h'. take_acks-Kept buffer nums (at + 20) r.1 h')

    take_notices-Kept :
        (buffer : List ℕ) (nums at : ℕ) (s : Sender Double)
        → Kept fl sys given s
        → Kept fl sys given (take_notices fl sys buffer nums at s)
    unfolding take_notices
    take_notices-Kept buffer zero at s h = h
    take_notices-Kept buffer (suc nums) at s h =
        take_notices-Kept buffer nums (at + 4) _
          (timer_expire-Kept fl sys given (read_be32 buffer at) s h)

    from_network-Kept :
        (acks : Option (List ℕ)) (s : Sender Double)
        → Kept fl sys given s
        → Leaves (Kept fl sys given) (from_network fl sys acks s)
    unfolding from_network
    from_network-Kept none s h = h
    from_network-Kept (some datagram) s h = take_acks-Kept datagram _ 0 s h

    from_timer-Kept :
        (notices : Option (List ℕ)) (s : Sender Double)
        → Kept fl sys given s
        → Kept fl sys given (from_timer fl sys notices s)
    unfolding from_timer
    from_timer-Kept none s h = h
    from_timer-Kept (some datagram) s h = take_notices-Kept datagram _ 0 s h

    -- The end of a round; which block is stored stays the same.
    abbrev Ended : Client Double → Client Double → Type 0
    Ended c1 c' =
        Kept fl sys given c'.sender × (c'.temp_stored ≡ c1.temp_stored) × (c'.bread ≡ c1.bread)

    rest-Ended :
        (temp : List ℕ) (block acks notices : Option (List ℕ)) (c : Client Double)
        → Kept fl sys given (take_block fl sys temp block c).sender
        → Leaves
            (Ended (take_block fl sys temp block c))
            (receive_and_send fl sys temp block acks notices c)
    unfolding receive_and_send
    rest-Ended temp block acks notices c h =
        let c1 = take_block fl sys temp block c in
        bind-Leaves (Kept fl sys given) (Ended c1) (from_network fl sys acks c1.sender) _
          (from_network-Kept acks c1.sender h)
          (λ s h'.
            bind-Leaves (Kept fl sys given) (Ended c1)
              (send_window fl sys (from_timer fl sys notices s)) _
              (send_window-Kept fl sys given _ (from_timer-Kept notices s h'))
              (λ s' h''. (h'', refl, refl)))

  Reach-Holding : {given : List ℕ} {c : Client Double} → Reach given c → Holding fl sys given c
  unfolding start
  Reach-Holding (started ip) = record {
    valid = initialize-IsValid;
    gone = [];
    all = sym contents-initialize;
    stored_fits = λ e. cc;
  }
  Reach-Holding (round {given} {c} {c'} r temp block acks notices whole fits inside e) =
      let t = take_block-Holding fl sys given temp block c (Reach-Holding r) whole fits in
      let all = given ++ new_bytes fl sys temp block c in
      let kept : Holds all (take_block fl sys temp block c).sender.buffer = record {
        inside = inside;
        valid = t.valid;
        gone = t.gone;
        all = t.all;
      } in
      let d : Ended all (take_block fl sys temp block c) c' =
        subst (Leaves (Ended all (take_block fl sys temp block c))) e
          (rest-Ended all temp block acks notices c kept) in
      record {
        valid = d.0.valid;
        gone = d.0.gone;
        all = d.0.all;
        stored_fits = λ stored. rw d.2 (t.stored_fits (sym d.1 ∙ stored));
      }

  -- After any rounds of `receiveAndSend` from the start of tcpdc on that return, whatever arrives and
  -- whatever fails to be sent, where no block of ftpc is empty or longer than 1000 bytes and the data
  -- never end with the last byte of the array: what the client's buffer holds is the end of all the
  -- bytes that were added to it (of ftpc's blocks, or of the array on the stack where a block was
  -- stored), in order, so that only bytes at the front were given up, and the buffer is valid.
  pub Reach-contents :
      {given : List ℕ} {c : Client Double}
      → Reach given c
      → ((gone : List ℕ) × (given ≡ gone ++ contents c.sender.buffer)) × IsValid c.sender.buffer
  Reach-contents r = let h = Reach-Holding r in ((h.gone, h.all), h.valid)
