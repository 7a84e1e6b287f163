-- ===== src/Sender/Tests.antt =====
-- The theorems on the sender at concrete states, with whole milliseconds for `double`, a clock that
-- stands still and a socket that takes everything.
use project.Base.{
  ℕ, ◌+◌, ◌-◌, ◌*◌, ◌/◌, ◌≡◌, refl, Bool, true, false, List, [], ◌∷◌, ◌++◌, map, arith, ◌==◌, inr,
  drop, length-replicate, replicate,
}
use project.Int.{ℤ, pos, pos_part, neg_part, ◌+ℤ◌, ◌-ℤ◌, ◌*ℤ◌}
use project.CBuffer.{PackNode, packet_bytes}
use project.CBuffer.Space.{used, used_cases}
use project.CBuffer.Ring.{contents}
use project.CBuffer.Invariant.{IsValid}
use project.TimerClient.{starttimer, canceltimer}
use project.CBuffer.Chain.{Chain}
use project.CBuffer.Shorten.{freed}
use project.Sender.{
  RttPack, Sender, ok, fault, troll, timer, packet, System, make_remote, send_window, recv_ack,
  timer_expire,
}
use project.Sender.Rtt.{Float, IsFinite, Estimator, initial, time_comps, time_comps_frozen}
use project.Sender.Slots.{free_count}
use project.Sender.Wire.{mark, unsent_count, wire}
use project.Sender.Send.{send_window-Sent}
use project.Sender.Ack.{acked, recv_ack_frees, recv_ack_gone}
use project.Sender.Expire.{timer_expire_resends}
use project.Sender.Overrun.{send_window_overrun}

abbrev eq_ℤ : ℤ → ℤ → Bool
eq_ℤ a b = (pos_part a + neg_part b) == (pos_part b + neg_part a)

abbrev whole : Float
whole = record {
  Double = ℤ;
  of_int = λ n. n;
  add = λ a b. a +ℤ b;
  sub = λ a b. a -ℤ b;
  mul = λ a b. a *ℤ b;
  div = λ a b. pos (pos_part a / pos_part b);
  fabs = λ a. pos (pos_part a + neg_part a);
  eqb = eq_ℤ;
}

whole-IsFinite : IsFinite whole
unfolding ◌+ℤ◌ ◌*ℤ◌
whole-IsFinite = record {
  one_mul = λ x. ground arith;
  zero_mul = λ x. ground arith;
  add_zero = λ x. ground arith;
}

abbrev still : System
still = record {
  clock = λ k. record { tv_sec = pos 7; tv_nsec = pos 0 };
  refused = λ k. false;
  past = λ k. replicate 8 0;
}

abbrev node : ℕ → ℕ → PackNode
node num a = record { seqnum = num; dat = (num - 5) * 10; size = 10; ack = a }

abbrev slot : ℕ → Bool → RttPack
slot num on = record { bsn = num; on = on; timestart = record { tv_sec = pos 6; tv_nsec = pos 0 } }

-- A window of three packets, 5 to 7, of which the first has been sent.
abbrev window : List RttPack → Sender ℤ
window slots = record {
  buffer = record {
    cirbuffer = replicate 64000 7;
    nodes = node 5 1 ∷ (node 6 0 ∷ (node 7 0 ∷ []));
    dstart = 0;
    dend = 30;
    windowend = 30;
    packseq = 8;
    is_empty = false;
  };
  packtimes = slots;
  rtt = initial whole;
  remote = make_remote (164 ∷ 107 ∷ 112 ∷ 71 ∷ []);
  readings = 0;
  sends = 0;
  outbox = [];
}

abbrev two_free : Sender ℤ
two_free = window (slot 5 true ∷ (slot 0 false ∷ (slot 4 false ∷ [])))

abbrev one_free : Sender ℤ
one_free = window (slot 5 true ∷ (slot 4 false ∷ []))

window-Chain : Chain 0 5 (two_free.buffer.nodes)
window-Chain = ground arith

send_window-Sent_example :
    (s' : Sender ℤ) × (send_window whole still two_free ≡ ok s')
    × (s'.outbox ≡ [] ++ wire two_free.remote two_free.buffer.cirbuffer two_free.buffer.nodes)
    × (s'.buffer ≡ record (two_free.buffer) { nodes = map mark two_free.buffer.nodes })
    × (free_count s'.packtimes + unsent_count two_free.buffer.nodes ≡ free_count two_free.packtimes)
send_window-Sent_example =
    send_window-Sent whole still (λ k. refl) two_free 5 window-Chain (omega arith)

send_window_overrun_example : send_window whole still one_free ≡ fault
send_window_overrun_example =
    send_window_overrun whole still (λ k. refl) one_free 5 window-Chain (omega arith)

abbrev settled : Estimator ℤ
settled = record { srtt = pos 40; rttvar = pos 20; rto = pos 120 }

time_comps_frozen_example :
    time_comps whole settled (pos 900) ≡ record settled { rto = pos 40 +ℤ (pos 4 *ℤ pos 20) }
time_comps_frozen_example = time_comps_frozen whole settled (pos 900) whole-IsFinite refl refl

-- The same window, all of it under way.
abbrev all_sent : Sender ℤ
all_sent =
    let s = window (slot 4 false ∷ (slot 6 true ∷ (slot 7 true ∷ []))) in
    record s { buffer = record (s.buffer) { nodes = node 5 1 ∷ (node 6 1 ∷ (node 7 1 ∷ [])) } }

used-all_sent : used all_sent.buffer ≡ 30
used-all_sent =
    omega
      (arith, used_cases all_sent.buffer (record { start_in = omega arith; end_in = omega arith }))

all_sent-IsValid : IsValid all_sent.buffer
all_sent-IsValid = record {
  sound = record {
    range = record { start_in = omega arith; end_in = omega arith };
    whole = length-replicate 64000 7;
    numbered = omega arith;
    chain = ground arith;
    in_window = omega arith;
    held = omega (arith, used-all_sent);
  };
  covers = omega (arith, used-all_sent);
  waits = λ e. omega arith;
}

recv_ack_frees_example :
    (s' : Sender ℤ) × (recv_ack whole still 6 all_sent ≡ ok (1, s'))
    × (s'.outbox ≡ [] ++ ((timer, canceltimer (replicate 8 0) 6) ∷ []))
    × (s'.packtimes ≡ (slot 4 false ∷ []) ++ (slot 6 false ∷ (slot 7 true ∷ [])))
    × (contents s'.buffer
        ≡ drop
            (freed (acked (node 5 1 ∷ []) (node 7 1 ∷ []) (node 6 1)))
            (contents all_sent.buffer))
    × IsValid s'.buffer
recv_ack_frees_example =
    recv_ack_frees whole still all_sent (node 5 1 ∷ []) (node 7 1 ∷ []) (node 6 1)
      (slot 4 false ∷ []) (slot 7 true ∷ []) (slot 6 true) (λ k. refl) all_sent-IsValid refl refl
      (ground arith) refl (inr (omega arith))

gone_ack :
    (s' : Sender ℤ) × (recv_ack whole still 4 all_sent ≡ ok (0, s'))
    × (s'.outbox ≡ [] ++ ((timer, canceltimer (replicate 8 0) 4) ∷ []))
    × (s'.buffer ≡ all_sent.buffer)
gone_ack =
    recv_ack_gone whole still 4 all_sent [] (slot 6 true ∷ (slot 7 true ∷ [])) (slot 4 false)
      (λ k. refl) (ground arith) refl tt refl

timer_expire_resends_example :
    (s' : Sender ℤ) × (send_window whole still (timer_expire whole still 6 all_sent) ≡ ok s')
    × (s'.outbox
        ≡ []
          ++ ((
            troll,
            packet all_sent.remote 6 (packet_bytes all_sent.buffer.cirbuffer (node 6 1)) 10,
          )
              ∷ ((timer, starttimer 1000 6) ∷ [])))
    × (s'.buffer ≡ all_sent.buffer)
timer_expire_resends_example =
    timer_expire_resends whole still all_sent 5 (node 5 1 ∷ []) (node 7 1 ∷ []) (node 6 1)
      (slot 4 false ∷ []) (slot 7 true ∷ []) (slot 6 true) (λ k. refl) (ground arith) refl refl
      (omega arith) refl refl
