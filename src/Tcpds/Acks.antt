-- ===== src/Tcpds/Acks.antt =====
-- Which packets of the first window tcpds.c acknowledges.
use project.Base.{
  ℕ, ◌≡◌, ◌≢◌, inl, inr, refl, sym, ap, ap₂, ◌∙◌, subst, Bool, true, false, List, [], ◌∷◌, ◌++◌,
  append-nil, append_assoc, map, arith, length, length-append, ◌==◌, ==_iff, All, All-append,
  Bool-cases, if◌then◌else◌, Option, none,
}
use project.Words.{le32}
use project.Sender.{ok, packet}
use project.Sender.Tracks.{In, In-append_left, In-append_right}
use project.SBuffer.{SBuffer}
use project.SBuffer.Window.{
  IsWindow, received, is_some, add_data-received, add_data_again, received-cases,
}
use project.SBuffer.Deliver.{first_of}
use project.Tcpds.{Stale, Daemon, Peer, network, remote_is_set}
use project.Tcpds.Store.{sbuffer, answered, packet_step}
use project.Tcpds.Reassembly.{IsFull, receive_packets}

-- The acknowledgement of packet `q`, as it is sent.
abbrev pub ack_to : List ℕ → ℕ → Peer × List ℕ
ack_to remote q = (network, remote ++ le32 q)

acks_append :
    (remote xs ys : List ℕ)
    → map (ack_to remote) xs ++ map (ack_to remote) ys ≡ map (ack_to remote) (xs ++ ys)
acks_append remote [] ys = refl
acks_append remote (x ∷ xs) ys =
    ap (λ (l : List (Peer × List ℕ)). ack_to remote x ∷ l) (acks_append remote xs ys)

unchosen : (k q : ℕ) (x y : Option (List ℕ)) → k ≢ q → (if k == q then x else y) ≡ y
unchosen k q x y other = let no : (k == q) ≡ false = ground (arith, other) in rw no refl

not_same : (k q : ℕ) → (k == q) ≡ false → k ≢ q
not_same k q other = ground arith

-- The packets acknowledged when `addData` returns `result` for packet `q`.
abbrev acked : ℕ → ℕ → List ℕ
acked q result = if result == 0 then [] else q ∷ []

-- One packet came in, and these were acknowledged.
record Step (q : ℕ) (bytes : List ℕ) (d d' : Daemon SBuffer) (acks : List ℕ) : Type 1 where
  remote_kept : d'.remote ≡ d.remote
  outbox_grown : d'.outbox ≡ d.outbox ++ map (ack_to d.remote) acks
  window : IsWindow d'.store
  own : (P : ℕ → Type 0) → P q → All P acks
  new : received d.store q ≡ none → In q acks
  others : (k : ℕ) → k ≢ q → received d'.store k ≡ received d.store k

answered-Step :
    (q result : ℕ) (bytes : List ℕ) (b : SBuffer) (d : Daemon SBuffer)
    → IsWindow b
    → (received d.store q ≡ none → result ≡ 1)
    → ((k : ℕ) → k ≢ q → received b k ≡ received d.store k)
    → Step q bytes d (answered q result b d) (acked q result)
answered-Step q result bytes b d w one same = elim (Bool-cases (result == 0)) [
  | inl e ↦ rw e (record {
    remote_kept = refl;
    outbox_grown = sym (append-nil d.outbox);
    window = w;
    own = λ P p. tt;
    new = λ h. absurd (ground (arith, e, one h));
    others = same;
  })
  | inr e ↦ rw e (record {
    remote_kept = refl;
    outbox_grown = refl;
    window = w;
    own = λ P p. (p, tt);
    new = λ h. inl refl;
    others = same;
  })
]

module _ (refused : ℕ → Bool) (never : (k : ℕ) → refused k ≡ false) (stale : Stale)
    (remote : List ℕ) (r : length remote ≡ 16) where
  packet-Step :
      (q : ℕ) (bytes : List ℕ) (d : Daemon SBuffer)
      → IsFull (q, bytes)
      → IsWindow d.store
      → (d' : Daemon SBuffer) × (acks : List ℕ) × (remote_is_set sbuffer refused stale
            (packet remote q bytes 1000)
            d
          ≡ ok d')
        × Step q bytes d d' acks
  packet-Step q bytes d full w = elim (received-cases d.store q) [
    | inl new ↦
        let (b, e, w', map') =
          add_data-received q (bytes ++ stale.behind) d.store w full.0 full.1
            (omega (arith, full.2, length-append bytes stale.behind)) new in
        (
          answered q 1 b d,
          acked q 1,
          packet_step refused never stale remote r q 1 bytes d b full.2 full.1 e,
          answered-Step q 1 bytes b d w' (λ h. refl) (λ k other. map' k ∙ unchosen k q _ _ other),
        )
    | inr old ↦
        let (b, e, w', same) =
          add_data_again q (bytes ++ stale.behind) d.store w full.0 full.1 old in
        (
          _,
          _,
          packet_step refused never stale remote r q _ bytes d b full.2 full.1 e,
          answered-Step q _ bytes b d w' (λ h. absurd (old h)) (λ k other. same k),
        )
  ]

  -- The packets that come in are acknowledged, each at least when it comes first.
  pub record Acknowledged (ps : List (ℕ × List ℕ)) (d d' : Daemon SBuffer) : Type 1 where
    pub acks : List ℕ
    pub outbox_grown : d'.outbox ≡ d.outbox ++ map (ack_to d.remote) acks
    pub own : (P : ℕ → Type 0) → All (λ p. P p.0) ps → All P acks
    pub complete : (k : ℕ) → received d.store k ≡ none → is_some (first_of ps k) ≡ true → In k acks

  pub receive_packets-Acknowledged :
      (ps : List (ℕ × List ℕ)) (d : Daemon SBuffer)
      → All IsFull ps
      → IsWindow d.store
      → (d' : Daemon SBuffer) × (receive_packets refused stale remote ps d ≡ ok d')
        × Acknowledged ps d d'
  unfolding receive_packets first_of
  receive_packets-Acknowledged [] d full w = (
    d,
    refl,
    record {
      acks = [];
      outbox_grown = sym (append-nil d.outbox);
      own = λ P all. tt;
      complete = λ k missing there. cc;
    },
  )
  receive_packets-Acknowledged ((q, bytes) ∷ ps) d full w =
      let (d1, acks, runs, st) = packet-Step q bytes d full.0 w in
      let (d', runs', v) = receive_packets-Acknowledged ps d1 full.1 st.window in
      (
        d',
        rw runs runs',
        record {
          acks = acks ++ v.acks;
          outbox_grown =
              v.outbox_grown
              ∙ ap₂ (λ (out : List (Peer × List ℕ)) (to : List ℕ). out ++ map (ack_to to) v.acks)
                  st.outbox_grown st.remote_kept
              ∙ append_assoc d.outbox (map (ack_to d.remote) acks) (map (ack_to d.remote) v.acks)
              ∙ ap (λ (l : List (Peer × List ℕ)). d.outbox ++ l) (acks_append d.remote acks v.acks);
          own = λ P all. All-append P acks v.acks (st.own P all.0) (v.own P all.1);
          complete = λ k missing there. elim (Bool-cases (k == q)) [
            | inl here ↦
                let e = (==_iff k q).0 here in
                In-append_left k acks v.acks (
                  subst (λ (j : ℕ). In j acks) (sym e)
                    (st.new (subst (λ (j : ℕ). received d.store j ≡ none) e missing)))
            | inr other ↦
                In-append_right k acks v.acks
                  (v.complete k (st.others k (not_same k q other) ∙ missing) (rw other at there))
          ];
        },
      )
