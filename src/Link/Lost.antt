-- ===== src/Link/Lost.antt =====
-- A packet of cbuffer.c that the network loses, and how timerprocess.c has it sent again.
use project.Base.{
  ℕ, ◌≤◌, ◌<◌, ◌≡◌, ◌^◌, refl, sym, ap, ◌∙◌, subst, inl, Bool, true, false, Option, none, some,
  List, [], ◌∷◌, ◌++◌, arith, length, All, drop,
}
use project.Int.{ℤ, pos, ◌+ℤ◌, ltb_ℤ}
use project.CBuffer.{PackNode, packet_bytes}
use project.CBuffer.Ring.{contents}
use project.CBuffer.Chain.{Chain, total}
use project.CBuffer.Invariant.{IsValid}
use project.Sender.{ok, packet, Sender, System, send_window}
use project.Sender.Rtt.{Float}
use project.Sender.Slots.{free_count}
use project.Sender.Wire.{unsent_count}
use project.SBuffer.{SBuffer, initialize}
use project.SBuffer.Window.{initialize-IsWindow, received-initialize, IsWindow, received}
use project.Tcpdc.{from_timer}
use project.Tcpdc.Round.{from_timer-expiration}
use project.Tcpds.{Stale, Daemon, remote_is_set}
use project.Tcpds.Reassembly.{IsFull}
use project.Tcpds.Store.{sbuffer, remote_is_set-received}
use project.Outcome.{Outcome, ◌>>=◌}
use project.TimerProcess.{TimerProcess, Unknown, round, expiration}
use project.TimerProcess.Alone.{wait, starttimer-expiration}
use project.Link.{to_troll, receive_datagrams, IsWhole}
use project.Link.Pieces.{pieces}
use project.Link.Transfer.{IsFresh, fresh-Chain, fresh-IsFull}
use project.Link.Slide.{receive_acks, receive_acks-freed}
use project.Link.Loop.{to_network, to_network-acks}
use project.Link.Twice.{Twice, to_timer, sent-Twice, troll-Twice, timer_once}

-- What `FD_ISSET` finds when these datagrams were sent.
abbrev pub arrived : List (List ℕ) → Option (List ℕ)
arrived [] = none
arrived (m ∷ ms) = some m

-- The timer process after a request: some rounds in which nothing comes, and one more.
abbrev pub timed :
    List (List ℕ)
    → Unknown × ℤ
    → List (Unknown × ℤ)
    → Unknown × ℤ
    → TimerProcess
    → Outcome TimerProcess
timed requests first rounds last t =
    round first.0 (arrived requests) first.1 t
    >>= (λ t'. wait rounds t')
    >>= (λ t'. round last.0 none last.1 t')

module _ (fl : Float) (sys : System) (never : (k : ℕ) → sys.refused k ≡ false) (refused : ℕ → Bool)
    (accepts : (k : ℕ) → refused k ≡ false) (stale : Stale) where
  open fl use {Double}

  received_one :
      (m : List ℕ) (d d' : Daemon SBuffer)
      → remote_is_set sbuffer refused stale m d ≡ ok d'
      → receive_datagrams refused stale (m ∷ []) d ≡ ok d'
  unfolding receive_datagrams
  received_one m d d' e = rw e refl

  -- The packet that is sent again comes to a new server daemon, and its acknowledgement back.
  again-freed :
      (s : Sender Double) (d : Daemon SBuffer) (n : PackNode)
      → IsFresh s.buffer
      → s.buffer.nodes ≡ n ∷ []
      → s.buffer.dend < 64000
      → length s.remote ≡ 16
      → to_troll s.outbox ≡ []
      → d.store ≡ initialize
      → length d.remote ≡ 16
      → to_network d.outbox ≡ []
      → (w : Twice fl sys never s n)
      → (d' : Daemon SBuffer) × (s' : Sender Double) × (receive_datagrams refused stale
            (drop 1 (to_troll w.again.outbox))
            d
          ≡ ok d')
        × (receive_acks fl sys (to_network d'.outbox) w.again ≡ ok s')
        × (contents s'.buffer ≡ drop (total s.buffer.nodes) (contents s.buffer))
        × IsValid s'.buffer
  again-freed s d n f at inside r quiet start r' quiet' w =
      let b = s.buffer in
      let whole : IsWhole n = (subst (All IsWhole) at f.whole_packets).0 in
      let number : n.seqnum ≡ 1 = (subst (Chain b.dstart 1) at (fresh-Chain b f)).3 in
      let one : length b.nodes ≡ 1 = ap length at in
      let full =
        (subst (λ (ns : List PackNode). All IsFull (pieces b.cirbuffer ns)) at
          (fresh-IsFull b f)).0 in
      let (d', runs, out, _, _) =
        remote_is_set-received refused accepts stale s.remote r n.seqnum
          (packet_bytes b.cirbuffer n) d full.2 full.0 full.1
          (subst IsWindow (sym start) initialize-IsWindow)
          (ap (λ (x : SBuffer). received x n.seqnum) start ∙ received-initialize n.seqnum) in
      let (s', frees, gone, valid) =
        receive_acks-freed fl sys s w.again d.remote (n.seqnum ∷ []) f inside w.marked
          (subst (All _) (sym at) (λ e. w.slots, tt)) r'
          ((omega arith, omega (arith, f.from_one)), tt)
          (λ k lo hi. inl (omega (arith, f.from_one))) in
      (
        d',
        s',
        ap (λ (ms : List (List ℕ)). receive_datagrams refused stale (drop 1 ms) d)
              (troll-Twice fl sys never s n quiet w)
            ∙ ap
                (λ (size : ℕ).
                  receive_datagrams refused stale
                    (packet s.remote n.seqnum (packet_bytes b.cirbuffer n) size ∷ []) d)
                whole.1
            ∙ received_one (packet s.remote n.seqnum (packet_bytes b.cirbuffer n) 1000) d d' runs,
        ap (λ (ms : List (List ℕ)). receive_acks fl sys ms w.again)
              (ap to_network out ∙ to_network-acks d.remote d.outbox (n.seqnum ∷ []) quiet')
            ∙ frees,
        gone,
        valid,
      )

  -- If no send fails, the window is one whole packet with number 1, which was not sent yet, with
  -- a slot for it, addresses of 16 bytes, nothing sent before on either side, and the end of the
  -- data in front of the end of the buffer, the network loses the packet, and the timer process,
  -- which had no timer and had sent no notice, finds the request in one round and nothing in the
  -- next ones, in all of which the clock shows less than a second more than at its reading before
  -- the request, and then a round in which it shows more than that: its notice makes tcpdc send the
  -- packet again, and when that comes to tcpds, which is new, and the acknowledgement comes back,
  -- tcpdc has given up exactly the bytes of the packet.
  pub send_window-timer_expire :
      (s : Sender Double) (d : Daemon SBuffer) (t : TimerProcess) (n : PackNode)
      (first : Unknown × ℤ) (rounds : List (Unknown × ℤ)) (last : Unknown × ℤ)
      → IsFresh s.buffer
      → s.buffer.nodes ≡ n ∷ []
      → s.buffer.dend < 64000
      → length s.remote ≡ 16
      → unsent_count s.buffer.nodes ≤ free_count s.packtimes
      → to_troll s.outbox ≡ []
      → to_timer s.outbox ≡ []
      → t.nodes ≡ []
      → t.notices ≡ []
      → All (λ r. ltb_ℤ r.1 (t.prev +ℤ pos 1000) ≡ true) (first ∷ rounds)
      → ltb_ℤ (t.prev +ℤ pos 1000) last.1 ≡ true
      → d.store ≡ initialize
      → length d.remote ≡ 16
      → to_network d.outbox ≡ []
      → (once again s' : Sender Double) × (t' : TimerProcess) × (d' : Daemon SBuffer) × (send_window
            fl sys s
          ≡ ok once)
        × (timed (to_timer once.outbox) first rounds last t ≡ ok t')
        × (send_window fl sys (from_timer fl sys (arrived t'.notices) once) ≡ ok again)
        × (receive_datagrams refused stale (drop 1 (to_troll again.outbox)) d ≡ ok d')
        × (receive_acks fl sys (to_network d'.outbox) again ≡ ok s')
        × (contents s'.buffer ≡ drop (total s.buffer.nodes) (contents s.buffer))
        × IsValid s'.buffer
  send_window-timer_expire s d t n first rounds last f at inside r room quiet quiet_timer idle
        none_yet early late start r' quiet' =
      let w = sent-Twice fl sys never s n f at room in
      let number : n.seqnum ≡ 1 = (subst (Chain s.buffer.dstart 1) at (fresh-Chain s.buffer f)).3 in
      let small : n.seqnum < 2 ^ 32 = omega arith in
      let (waiting, waits, silent, fires) =
        starttimer-expiration 1000 n.seqnum first rounds last t small (omega arith) idle early
          late in
      let t' : TimerProcess = record {
        nodes = [];
        prev = last.1;
        notices = t.notices ++ (expiration n.seqnum ∷ []);
      } in
      let runs : timed (to_timer w.once.outbox) first rounds last t ≡ ok t' =
        ap (λ (ms : List (List ℕ)). timed ms first rounds last t)
          (timer_once fl sys never s n quiet_timer w)
        ∙ ap (λ (o : Outcome TimerProcess). o >>= λ x. round last.0 none last.1 x) waits
        ∙ fires in
      let notice : arrived t'.notices ≡ some (expiration n.seqnum) =
        ap (λ (l : List (List ℕ)). arrived (l ++ (expiration n.seqnum ∷ []))) none_yet in
      let (d', s', receives, frees, gone, valid) =
        again-freed s d n f at inside r quiet start r' quiet' w in
      (
        w.once,
        w.again,
        s',
        t',
        d',
        w.runs,
        runs,
        ap (λ (o : Option (List ℕ)). send_window fl sys (from_timer fl sys o w.once)) notice
            ∙ ap (send_window fl sys) (from_timer-expiration fl sys n.seqnum w.once small)
            ∙ w.reruns,
        receives,
        frees,
        gone,
        valid,
      )
