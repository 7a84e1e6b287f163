-- ===== src/Sender/Acks.antt =====
-- `recvACK` of cbuffer.c for one acknowledgement after another.
use project.Base.{
  ℕ, ◌≤◌, ◌<◌, ◌≡◌, refl, sym, inl, inr, Option, none, some, List, [], ◌∷◌, subst, Bool-cases,
}
use project.CBuffer.{PackNode, check_window}
use project.Sender.{
  RttPack, Address, timer, Sender, ok, acknowledge, System, send, mark_acked, settle, recv_ack,
}
use project.Sender.Rtt.{Float}
use project.Sender.Keeps.{send-buffer}
use project.Sender.Restamp.{acknowledge-Restamps}
use project.Sender.Tracks.{acknowledge-Acked}
use project.Sender.Taken.{InSlot, switch_off-InSlot}
use project.Sender.Slide.{AreBelow, Slid, Slid-acknowledge}

module _ (fl : Float) (sys : System) where
  open fl use {Double}

  send-packtimes :
      (to : Address) (bytes : List ℕ) (s : Sender Double)
      → (send fl sys to bytes s).1.packtimes ≡ s.packtimes
  unfolding send
  send-packtimes to bytes s = elim (Bool-cases (sys.refused s.sends)) [
    | inl failed ↦ rw failed
    | inr sent ↦ rw sent
  ]

  -- The window and the slots while acknowledgements come in.
  pub record Slides (limit all : ℕ) (held came : List ℕ) (s : Sender Double) : Type 0 where
    pub window : Slid limit all held came s.buffer
    pub slots : (k : ℕ) → 1 ≤ k → k < limit → InSlot k s.packtimes

  module _ (limit all : ℕ) (held : List ℕ) (num : ℕ) (came : List ℕ)
      (small : AreBelow limit (num ∷ came)) where
    mark_acked-Slides :
        (s : Sender Double)
        → Slides limit all held came s
        → Slides limit all held (num ∷ came) (mark_acked fl sys num s).1
    unfolding mark_acked
    mark_acked-Slides s v = by_found (acknowledge num s.buffer.nodes) (
        Slid-acknowledge limit all held num came small s.buffer v.window
          (acknowledge num s.buffer.nodes) (acknowledge-Restamps num s.buffer.nodes)
          (acknowledge-Acked num s.buffer.dstart _ came s.buffer.nodes v.window.valid.sound.chain
            v.window.tracked))
      where
        by_found :
            (o : Option (List PackNode))
            → Slid limit all held (num ∷ came) (elim o [
              | none ↦ s.buffer
              | some ns ↦ check_window (record (s.buffer) { nodes = ns })
            ])
            → let r : ℕ × Sender Double = elim o [
              | none ↦ (0, s)
              | some nodes' ↦
                  (1, record s { buffer = check_window (record (s.buffer) { nodes = nodes' }) })
            ] in
              Slides limit all held (num ∷ came) r.1
        by_found none w = record { window = w; slots = v.slots }
        by_found (some ns) w = record { window = w; slots = v.slots }

    settle-Slides :
        (slot : ℕ) (p : RttPack) (s : Sender Double)
        → Slides limit all held came s
        → Slides limit all held (num ∷ came) (settle fl sys num slot p s).1
    unfolding settle
    settle-Slides slot p s v = mark_acked-Slides _ (record {
      window = subst (Slid limit all held came) (sym (send-buffer fl sys [] timer _ _)) v.window;
      slots = λ k lo hi.
          subst (InSlot k) (sym (send-packtimes timer _ _))
            (switch_off-InSlot k slot s.packtimes (v.slots k lo hi));
    })

    -- An acknowledgement for a packet that was sent is taken.
    pub recv_ack-Slides :
        (s : Sender Double)
        → 1 ≤ num
        → num < limit
        → Slides limit all held came s
        → (r : ℕ × Sender Double) × (recv_ack fl sys num s ≡ ok r)
          × Slides limit all held (num ∷ came) r.1
    unfolding recv_ack
    recv_ack-Slides s lo hi v =
        let (i, p, found, entry) = v.slots num lo hi in
        (settle fl sys num i p s, rw (found, entry) refl, settle-Slides i p s v)
