-- ===== src/SBuffer/Fill.antt =====
-- What `addData` of sbuffer.c makes of a hole of the first window.
use project.Base.{
  ℕ, ◌+◌, ◌-◌, ◌*◌, ◌≤◌, ◌<◌, ◌≡◌, inl, inr, refl, subst, true, false, ◌&&◌, arith, ltb, ◌==◌,
  Bool-cases, some, none,
}
use project.Int.{pos, ◌+ℤ◌, ◌-ℤ◌, ltb_ℤ, leb_ℤ, int_laws}
use project.SBuffer.{
  CirNode, Cursor, nodes, wrap, packet_node, split_hole, fill_hole, fill, fill_beginning,
  fill_middle, fill_end,
}
use project.SBuffer.Tiles.{IsTile, Tiles, filled_at}

-- A hole from `s` on in which packet `q` is put.
pub record Filled (s q : ℕ) (c : CirNode) (k : Cursor) : Type 0 where
  pub tiles : Tiles s (nodes k) (c.last_seq + 1)
  pub place : k.current.dat ≡ pos ((q - 1) * 1000)
  pub packets : (j : ℕ) → filled_at j (nodes k) ≡ (j == q)

wrap_within : (n : ℕ) → n ≤ 64000 → wrap (pos n) ≡ pos n
unfolding wrap
wrap_within n h = ground arith

module _ (s : ℕ) (c : CirNode) (t : IsTile s c) (h : 1 ≤ s) where
  split_hole-Filled : s < c.last_seq → Filled s s c (split_hole s 1000 c)
  unfolding split_hole packet_node filled_at
  split_hole-Filled more = record {
    tiles = (
      record {
        first_is = refl;
        some_numbers = omega arith;
        dat_is = t.dat_is;
        size_is = ground arith;
      },
      (
        record {
          first_is = refl;
          some_numbers = omega arith;
          dat_is = rw t.dat_is (omega int_laws);
          size_is = rw t.size_is (omega int_laws);
        },
        refl,
      ),
    );
    place = t.dat_is;
    packets = λ j. ground arith;
  }

  fill_hole-Filled : c.last_seq ≡ s → Filled s s c (fill_hole s 1000 c)
  unfolding fill_hole packet_node filled_at
  fill_hole-Filled one = record {
    tiles = (
      record {
        first_is = refl;
        some_numbers = omega arith;
        dat_is = t.dat_is;
        size_is = ground arith;
      },
      omega arith,
    );
    place = t.dat_is;
    packets = λ j. ground arith;
  }

  fill_beginning-Filled : (k : Cursor) × (fill_beginning s 1000 c ≡ some k) × Filled s s c k
  unfolding fill_beginning
  fill_beginning-Filled = elim (Bool-cases (ltb s c.last_seq)) [
    | inl more ↦
        let less : ltb_ℤ (pos 1000) c.size ≡ true = ground (arith, t) in
        (split_hole s 1000 c, rw less refl, split_hole-Filled (ground arith))
    | inr one ↦
        let not_less : ltb_ℤ (pos 1000) c.size ≡ false = ground (arith, t) in
        let all : leb_ℤ (pos 1000) c.size ≡ true = ground (arith, t) in
        (fill_hole s 1000 c, rw (not_less, all) refl, fill_hole-Filled (ground (arith, t)))
  ]

  module _ (q : ℕ) (lo : s < q) (top : c.last_seq ≤ 64) (hole : c.filled ≡ false) where
    middle_place :
        q < c.last_seq
        → wrap (c.dat +ℤ pos ((q - 1 + 1 - c.first_seq) * 1000)) ≡ pos ((q - 1) * 1000)
    middle_place hi =
        let e : c.dat +ℤ pos ((q - 1 + 1 - c.first_seq) * 1000) ≡ pos ((q - 1) * 1000) =
          rw (t.dat_is, t.first_is) (omega int_laws) in
        rw e (wrap_within ((q - 1) * 1000) (omega arith))

    behind_place : q < c.last_seq → wrap (pos ((q - 1) * 1000) +ℤ pos 1000) ≡ pos (q * 1000)
    behind_place hi =
        let e : pos ((q - 1) * 1000) +ℤ pos 1000 ≡ pos (q * 1000) = omega int_laws in
        rw e (wrap_within (q * 1000) (omega arith))

    end_place : q ≡ c.last_seq → wrap (c.dat +ℤ c.size -ℤ pos 1000) ≡ pos ((q - 1) * 1000)
    end_place hi =
        let e : c.dat +ℤ c.size -ℤ pos 1000 ≡ pos ((q - 1) * 1000) =
          rw (t.dat_is, t.size_is) (omega int_laws) in
        rw e (wrap_within ((q - 1) * 1000) (omega arith))

    fill_middle-Filled : q < c.last_seq → Filled s q c (fill_middle q 1000 c)
    unfolding fill_middle packet_node filled_at
    fill_middle-Filled hi = record {
      tiles = (
        record {
          first_is = t.first_is;
          some_numbers = omega arith;
          dat_is = t.dat_is;
          size_is = rw t.first_is refl;
        },
        (
          record {
            first_is = omega arith;
            some_numbers = omega arith;
            dat_is = rw (middle_place hi) (ground arith);
            size_is = ground arith;
          },
          (
            record {
              first_is = refl;
              some_numbers = omega arith;
              dat_is = rw (middle_place hi) (rw (behind_place hi) (ground arith));
              size_is = rw (t.size_is, t.first_is) (omega int_laws);
            },
            refl,
          ),
        ),
      );
      place = middle_place hi;
      packets = λ j. ground (arith, t);
    }

    fill_end-Filled : q ≡ c.last_seq → Filled s q c (fill_end q 1000 c)
    unfolding fill_end packet_node filled_at
    fill_end-Filled hi = record {
      tiles = (
        record {
          first_is = t.first_is;
          some_numbers = omega arith;
          dat_is = t.dat_is;
          size_is = rw t.size_is (omega int_laws);
        },
        (
          record {
            first_is = omega arith;
            some_numbers = omega arith;
            dat_is = rw (end_place hi) (ground arith);
            size_is = ground arith;
          },
          omega arith,
        ),
      );
      place = end_place hi;
      packets = λ j. ground (arith, t);
    }

  -- Any packet of a hole of the first window finds its place in it.
  pub fill-Filled :
      (q : ℕ)
      → s ≤ q
      → q ≤ c.last_seq
      → c.last_seq ≤ 64
      → c.filled ≡ false
      → (k : Cursor) × (fill q 1000 c ≡ some k) × Filled s q c k
  unfolding fill
  fill-Filled q lo hi top hole = elim (Bool-cases (c.first_seq == q)) [
    | inl first ↦
        let e : s ≡ q = ground (arith, t) in
        rw first (
          subst (λ (p : ℕ). (k : Cursor) × (fill_beginning p 1000 c ≡ some k) × Filled s p c k) e
            fill_beginning-Filled)
    | inr later ↦
        let lo' : s < q = ground (arith, t) in
        elim (Bool-cases (ltb q c.last_seq)) [
          | inl inside ↦
              let mid : (ltb c.first_seq q && ltb q c.last_seq) ≡ true = ground (arith, t) in
              (
                fill_middle q 1000 c,
                rw (later, mid) refl,
                fill_middle-Filled q lo' top hole (ground arith),
              )
          | inr last ↦
              let not_mid : (ltb c.first_seq q && ltb q c.last_seq) ≡ false = ground (arith, t) in
              let at_end : (ltb c.first_seq q && (c.last_seq == q)) ≡ true = ground (arith, t) in
              (
                fill_end q 1000 c,
                rw (later, not_mid, at_end) refl,
                fill_end-Filled q lo' top hole (ground arith),
              )
        ]
  ]

  -- Of a packet behind it the hole takes no notice.
  pub fill_beyond : (q : ℕ) → c.last_seq < q → fill q 1000 c ≡ none
  unfolding fill
  fill_beyond q lo = ground (arith, t)

  -- Nor of one in front of it.
  pub fill_before : (q : ℕ) → q < s → fill q 1000 c ≡ none
  unfolding fill
  fill_before q hi = ground (arith, t)
