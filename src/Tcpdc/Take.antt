-- ===== src/Tcpdc/Take.antt =====
-- What a round of tcpdc.c adds to its buffer: `addData` with the block stored and the one that came.
use project.Base.{
  ℕ, ◌-◌, ◌≤◌, ◌<◌, ◌≡◌, refl, sym, ap, ◌∙◌, subst, Bool, true, false, none, some, Option, List, [],
  ◌++◌, arith, length, leb, if◌then◌else◌, take, drop, length-append, take_front, append_assoc,
  append-nil, Bool-cases, inl, inr,
}
use project.CBuffer.Ring.{contents}
use project.CBuffer.Invariant.{IsValid}
use project.CBuffer.Add.{push_block}
use project.Sender.{System}
use project.Sender.Rtt.{Float}
use project.Tcpdc.{Client, offer, take_block}
use project.Tcpdc.Round.{Offered, offer-Offered}

-- What a buffer that holds `held` takes of a block: all or nothing.
abbrev pub accepted : List ℕ → List ℕ → List ℕ
accepted held block = if leb (length block) (64000 - length held) then block else []

-- A block of ftpc, if there is one.
abbrev pub Fits : Option (List ℕ) → Type 0
Fits none = Unit
Fits (some block) = (0 < length block) × (length block ≤ 1000)

push_block-accepted :
    (held block : List ℕ) → (push_block held block).1 ≡ held ++ accepted held block
unfolding push_block
push_block-accepted held block = elim (Bool-cases (leb (length block) (64000 - length held))) [
  | inl room ↦ rw room refl
  | inr full ↦ rw full (sym (append-nil held))
]

module _ (fl : Float) (sys : System) where
  open fl use {Double}

  -- What the buffer takes in a round: of the block that is stored, read from the array on the stack,
  -- and of the one that has arrived, if none is stored then.
  pub new_bytes : List ℕ → Option (List ℕ) → Client Double → List ℕ
  new_bytes temp arrived c =
      let c1 = take_block fl sys temp none c in
      let again =
        if c.temp_stored then accepted (contents c.sender.buffer) (take c.bread temp) else [] in
      elim arrived [
        | none ↦ again
        | some block ↦
            if c1.temp_stored then again else again ++ accepted (contents c1.sender.buffer) block
      ]

  -- Between two rounds.
  pub record Holding (given : List ℕ) (c : Client Double) : Type 0 where
    pub valid : IsValid c.sender.buffer
    pub gone : List ℕ
    pub all : given ≡ gone ++ contents c.sender.buffer
    pub stored_fits : c.temp_stored ≡ true → (0 < c.bread) × (c.bread ≤ 1000)

  offer-bread : (temp : List ℕ) (c : Client Double) → (offer fl sys temp c).bread ≡ c.bread
  unfolding offer
  offer-bread temp c = ground arith

  offer-Holding :
      (given temp : List ℕ) (c : Client Double)
      → Holding given c
      → 0 < c.bread
      → c.bread ≤ 1000
      → c.bread ≤ length temp
      → Holding
          (given ++ accepted (contents c.sender.buffer) (take c.bread temp))
          (offer fl sys temp c)
  offer-Holding given temp c h pos small fits = record {
    valid = o.2;
    gone = h.gone;
    all = rw h.all (
        append_assoc h.gone _ _
        ∙ ap (λ (x : List ℕ). h.gone ++ x) (sym (o.0 ∙ push_block-accepted _ _)));
    stored_fits = λ e. rw (offer-bread temp c) (pos, small);
  }
    where
      o : Offered fl sys (take c.bread temp) c (offer fl sys temp c)
      o = offer-Offered fl sys temp c h.valid pos fits

  -- A test that decides both what is taken and what becomes of the daemon.
  by_test :
      (given x y : List ℕ) (c d : Client Double) (test : Bool)
      → (test ≡ true → Holding (given ++ x) c)
      → (test ≡ false → Holding (given ++ y) d)
      → Holding (given ++ (if test then x else y)) (if test then c else d)
  by_test given x y c d true t f = t refl
  by_test given x y c d false t f = f refl

  -- The block that is stored is offered again.
  again-Holding :
      (given temp : List ℕ) (c : Client Double)
      → Holding given c
      → length temp ≡ 1000
      → Holding (given ++ new_bytes temp none c) (take_block fl sys temp none c)
  unfolding new_bytes take_block
  again-Holding given temp c h whole =
      by_test given (accepted (contents c.sender.buffer) (take c.bread temp)) []
        (offer fl sys temp c) c c.temp_stored
        (λ stored.
          let (pos, small) = h.stored_fits stored in
          offer-Holding given temp c h pos small (omega arith))
        (λ clear. subst (λ (x : List ℕ). Holding x c) (sym (append-nil given)) h)

  -- A block that arrives while none is stored.
  block-Holding :
      (given temp block : List ℕ) (c : Client Double)
      → Holding given c
      → 0 < length block
      → length block ≤ 1000
      → Holding
          (given ++ accepted (contents c.sender.buffer) block)
          (offer fl sys (block ++ drop (length block) temp) (record c { bread = length block }))
  block-Holding given temp block c h pos small =
      subst
        (λ (b : List ℕ).
          Holding (given ++ accepted (contents c.sender.buffer) b)
            (offer fl sys all (record c { bread = length block })))
        (take_front (length block) block (drop (length block) temp) refl)
        (offer-Holding given all (record c { bread = length block }) read pos small
          (omega (arith, length-append block (drop (length block) temp))))
    where
      all : List ℕ
      all = block ++ drop (length block) temp

      read : Holding given (record c { bread = length block })
      read = record { valid = h.valid; gone = h.gone; all = h.all; stored_fits = λ e. (pos, small) }

  arrived-take_block :
      (temp block : List ℕ) (c : Client Double)
      → take_block fl sys temp (some block) c ≡ (
          let c1 = take_block fl sys temp none c in
          if c1.temp_stored
          then c1
          else offer fl sys
              (block ++ drop (length block) temp)
              (record c1 { bread = length block }))
  unfolding take_block
  arrived-take_block temp block c = refl

  arrived-new_bytes :
      (temp block : List ℕ) (c : Client Double)
      → new_bytes temp (some block) c ≡ (
          let c1 = take_block fl sys temp none c in
          if c1.temp_stored
          then new_bytes temp none c
          else new_bytes temp none c ++ accepted (contents c1.sender.buffer) block)
  unfolding new_bytes
  arrived-new_bytes temp block c = refl

  pub take_block-Holding :
      (given temp : List ℕ) (block : Option (List ℕ)) (c : Client Double)
      → Holding given c
      → length temp ≡ 1000
      → Fits block
      → Holding (given ++ new_bytes temp block c) (take_block fl sys temp block c)
  take_block-Holding given temp none c h whole fits = again-Holding given temp c h whole
  take_block-Holding given temp (some block) c h whole fits =
      let c1 = take_block fl sys temp none c in
      let h1 = again-Holding given temp c h whole in
      rw (arrived-take_block temp block c, arrived-new_bytes temp block c)
        (by_test given (new_bytes temp none c)
          (new_bytes temp none c ++ accepted (contents c1.sender.buffer) block) c1
          (offer fl sys (block ++ drop (length block) temp) (record c1 { bread = length block }))
          c1.temp_stored (λ stored. h1)
          (λ clear.
            subst
              (λ (x : List ℕ). Holding x (
                offer fl sys (block ++ drop (length block) temp)
                  (record c1 { bread = length block })))
              (append_assoc given (new_bytes temp none c) _)
              (block-Holding (given ++ new_bytes temp none c) temp block c1 h1 fits.0 fits.1)))
