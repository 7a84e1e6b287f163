-- ===== src/Tcpdc/Round.antt =====
-- What a call of `receiveAndSend` of tcpdc.c does with a block, an acknowledgement and a notice.
use project.Base.{
  ℕ, ◌/◌, ◌^◌, ◌≤◌, ◌<◌, ◌≡◌, refl, sym, ap, ◌∙◌, subst, false, not, some, List, [], ◌∷◌, ◌++◌,
  arith, length, length-append, take, drop, take_front, ◌==◌, Bool-cases, inl, inr,
}
use project.Words.{le32, read_le32, read_behind, read_le32-le32, read_be32-be32}
use project.CBuffer.{Buffer, add_data}
use project.CBuffer.Ring.{contents}
use project.CBuffer.Invariant.{IsValid}
use project.CBuffer.Add.{push_block, add_data_refines}
use project.TimerProcess.{expiration}
use project.Sender.{Sender, ok, ◌>>=◌, host, System, send, recv_ack, timer_expire}
use project.Sender.Rtt.{Float}
use project.Tcpdc.{Client, offer, take_block, take_acks, take_notices, from_network, from_timer}

module _ (fl : Float) (sys : System) where
  open fl use {Double}

  -- An acknowledgement as tcpds sends it, 16 bytes of address and a 32-bit number, is taken for
  -- that number.
  pub from_network-ack :
      (remote : List ℕ) (bsn : ℕ) (s : Sender Double)
      → length remote ≡ 16
      → bsn < 2 ^ 32
      → from_network fl sys (some (remote ++ le32 bsn)) s ≡ (recv_ack fl sys bsn s >>= λ r. ok r.1)
  unfolding from_network take_acks
  from_network-ack remote bsn s r h = rw (one, number)
    where
      one : length (remote ++ le32 bsn) / 20 ≡ 1
      one = omega (arith, length-append remote (le32 bsn))

      number : read_le32 (remote ++ le32 bsn) 16 ≡ bsn
      number = read_behind remote (le32 bsn) 0 16 (omega arith) ∙ read_le32-le32 bsn [] h

  -- A notice as the timer process sends it ends the timer of its 32-bit number.
  pub from_timer-expiration :
      (bsn : ℕ) (s : Sender Double)
      → bsn < 2 ^ 32
      → from_timer fl sys (some (expiration bsn)) s ≡ timer_expire fl sys bsn s
  unfolding from_timer take_notices expiration
  from_timer-expiration bsn s h = rw (read_be32-be32 bsn [] h)

  send-buffer :
      (bytes : List ℕ) (s : Sender Double) → (send fl sys host bytes s).1.buffer ≡ s.buffer
  unfolding send
  send-buffer bytes s = elim (Bool-cases (sys.refused s.sends)) [
    | inl failed ↦ rw failed
    | inr sent ↦ rw sent
  ]

  -- What is made of a block that is offered: it is taken whole and answered, or stays stored.
  abbrev pub Offered : List ℕ → Client Double → Client Double → Type 0
  Offered block c c' =
      let (result, q) = push_block (contents c.sender.buffer) block in
      (contents c'.sender.buffer ≡ q)
      × (c'.temp_stored ≡ not (result == 1))
      × IsValid c'.sender.buffer

  pub offer-Offered :
      (temp : List ℕ) (c : Client Double)
      → IsValid c.sender.buffer
      → 0 < c.bread
      → c.bread ≤ length temp
      → Offered (take c.bread temp) c (offer fl sys temp c)
  unfolding offer
  offer-Offered temp c v pos fits = elim (Bool-cases (out.0 == 1)) [
    | inl taken ↦
        let b = send-buffer (49 ∷ []) (record (c.sender) { buffer = out.1 }) in
        rw (taken, offer) (rw b (ap (λ (p : ℕ × List ℕ). p.1) a.0, rw (sym flag, taken), a.1))
    | inr kept ↦ rw (kept, offer) (ap (λ (p : ℕ × List ℕ). p.1) a.0, rw (sym flag, kept), a.1)
  ]
    where
      out : ℕ × Buffer
      out = add_data c.sender.buffer temp c.bread

      a :
          ((out.0, contents out.1) ≡ push_block (contents c.sender.buffer) (take c.bread temp))
          × IsValid out.1
      a = add_data_refines c.sender.buffer temp c.bread v pos fits

      flag : out.0 ≡ (push_block (contents c.sender.buffer) (take c.bread temp)).0
      flag = ap (λ (p : ℕ × List ℕ). p.0) a.0

  -- A block that is not empty and arrives while none is stored, with a valid buffer, is taken
  -- whole if there is room for it, and is otherwise stored with nothing changed in what is held;
  -- the buffer stays valid.
  pub take_block-Offered :
      (temp block : List ℕ) (c : Client Double)
      → IsValid c.sender.buffer
      → c.temp_stored ≡ false
      → 0 < length block
      → Offered block c (take_block fl sys temp (some block) c)
  unfolding take_block offer
  take_block-Offered temp block c v none_stored pos = rw none_stored (
      subst (λ (b : List ℕ). Offered b c (offer fl sys all (record c { bread = length block })))
        (take_front (length block) block (drop (length block) temp) refl)
        (offer-Offered all (record c { bread = length block }) v pos
          (omega (arith, length-append block (drop (length block) temp)))))
    where
      all : List ℕ
      all = block ++ drop (length block) temp
