-- ===== src/Tcpds/Store.antt =====
-- tcpds.c with the buffer of sbuffer.c behind it.
use project.Base.{
  ℕ, ◌+◌, ◌-◌, ◌≤◌, ◌≡◌, ◌≢◌, refl, ap, ◌∙◌, Bool, true, false, List, [], ◌∷◌, ◌++◌, arith, length,
  length-append, take, take_front, ◌==◌, if◌then◌else◌, some, none,
}
use project.Words.{le32}
use project.Sender.{Outcome, ok, fault, hangs, packet}
use project.SBuffer
use project.SBuffer.{SBuffer, Run, returns, endless, faults, unfinished, initialize}
use project.SBuffer.Window.{IsWindow, received, is_some, add_data-received, add_data_again}
use project.Tcpds.{Stale, ServerBuffer, Daemon, network, remote_is_set}
use project.Tcpds.Accept.{remote_is_set-packet}

-- A run as the daemon meets it.
abbrev pub outcome : {A : Type 0} → Run A → Outcome A
outcome (returns a) = ok a
outcome endless = hangs
outcome faults = fault
outcome unfinished = hangs

abbrev pub sbuffer : ServerBuffer
sbuffer = record {
  Store = SBuffer;
  add_data = λ seqnum size bytes b. outcome (SBuffer.add_data seqnum size bytes b);
  request_data = λ size b. outcome (SBuffer.request_data size b);
}

-- The daemon after `addData`.
abbrev pub answered : ℕ → ℕ → SBuffer → Daemon SBuffer → Daemon SBuffer
answered q result b d = if result == 0 then record d { store = b } else record d {
  store = b;
  sends = d.sends + 1;
  outbox = d.outbox ++ ((network, d.remote ++ le32 q) ∷ []);
}

module _ (refused : ℕ → Bool) (never : (k : ℕ) → refused k ≡ false) (stale : Stale)
    (remote : List ℕ) (r : length remote ≡ 16) where
  pub packet_step :
      (q result : ℕ) (bytes : List ℕ) (d : Daemon SBuffer) (b : SBuffer)
      → length bytes ≡ 1000
      → q ≤ 64
      → SBuffer.add_data q 1000 (bytes ++ stale.behind) d.store ≡ returns (result, b)
      → remote_is_set sbuffer refused stale (packet remote q bytes 1000) d
        ≡ ok (answered q result b d)
  packet_step q result bytes d b n hi e =
      remote_is_set-packet sbuffer refused stale remote bytes q d never r n (omega arith)
      ∙ rw e refl

  whole_packet : (bytes : List ℕ) → length bytes ≡ 1000 → take 1000 (bytes ++ stale.behind) ≡ bytes
  whole_packet bytes n = take_front 1000 bytes stale.behind n

  -- If no send fails and nothing was read yet, a packet of 1000 bytes as `sendWindow` sends it, with
  -- a number from 1 to 64 that is not there, is stored under its number, with no other changed, and
  -- acknowledged.
  pub remote_is_set-received :
      (q : ℕ) (bytes : List ℕ) (d : Daemon SBuffer)
      → length bytes ≡ 1000
      → 1 ≤ q
      → q ≤ 64
      → IsWindow d.store
      → received d.store q ≡ none
      → (d' : Daemon SBuffer) × (remote_is_set sbuffer refused stale (packet remote q bytes 1000) d
          ≡ ok d')
        × (d'.outbox ≡ d.outbox ++ ((network, d.remote ++ le32 q) ∷ []))
        × IsWindow d'.store
        × ((k : ℕ) → received d'.store k ≡ (if k == q then some bytes else received d.store k))
  remote_is_set-received q bytes d n lo hi w new =
      let (b, e, w', map') =
        add_data-received q (bytes ++ stale.behind) d.store w lo hi
          (omega (arith, length-append bytes stale.behind)) new in
      (
        answered q 1 b d,
        packet_step q 1 bytes d b n hi e,
        refl,
        w',
        λ k.
            map' k
            ∙ ap (λ (x : List ℕ). if k == q then some x else received d.store k)
                (whole_packet bytes n),
      )

  -- If no send fails and nothing was read yet, a packet that comes again, with a number from 1 to 64
  -- of which that one and the one in front are there, is not acknowledged: nothing is sent, and no
  -- packet changes.
  pub remote_is_set_again :
      (q : ℕ) (bytes : List ℕ) (d : Daemon SBuffer)
      → length bytes ≡ 1000
      → 1 ≤ q
      → q ≤ 64
      → IsWindow d.store
      → received d.store q ≢ none
      → is_some (received d.store (q - 1)) ≡ true
      → (d' : Daemon SBuffer) × (remote_is_set sbuffer refused stale (packet remote q bytes 1000) d
          ≡ ok d')
        × (d'.outbox ≡ d.outbox)
        × IsWindow d'.store
        × ((k : ℕ) → received d'.store k ≡ received d.store k)
  remote_is_set_again q bytes d n lo hi w old before =
      let (b, e, w', same) = add_data_again q (bytes ++ stale.behind) d.store w lo hi old in
      (answered q 0 b d, packet_step q 0 bytes d b n hi (rw before at e), refl, w', same)
