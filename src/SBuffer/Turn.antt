-- ===== src/SBuffer/Turn.antt =====
-- sbuffer.c between two packets: the nodes where each packet was read before the next one came.
use project.Base.{
  ℕ, ◌+◌, ◌-◌, ◌*◌, ◌≤◌, ◌≡◌, refl, ap, ◌∙◌, true, false, List, [], ◌∷◌, arith, ==_refl,
  if◌then◌else◌, ltb,
}
use project.Int.{ℤ, pos, ◌+ℤ◌, ◌-ℤ◌}
use project.SBuffer.{
  CirNode, SBuffer, returns, joins, blends, blend, join_all, blend_all, closes, advance, absorb,
  merge_from, merge_list, packet_node, split_hole, fill, fill_beginning, write_packet, store, scan,
  add_data, read_packet, take_whole, request_data,
}
use project.SBuffer.Results.{try_node_put}

-- Rings of two and of three nodes.
merge_two :
    (d : ℕ) (c n : CirNode)
    → joins c n ≡ false
    → blends d c n ≡ false
    → merge_list d (c ∷ (n ∷ [])) ≡ returns (c ∷ (n ∷ []))
unfolding merge_list merge_from absorb join_all blend_all closes advance
merge_two d c n e f = rw (e, f) refl

merge_three :
    (d : ℕ) (c x y : CirNode)
    → joins c x ≡ false
    → blends d c x ≡ false
    → joins x y ≡ false
    → blends d x y ≡ true
    → blends d (blend x y) c ≡ false
    → joins c (blend x y) ≡ false
    → blends d c (blend x y) ≡ false
    → merge_list d (c ∷ (x ∷ (y ∷ []))) ≡ returns (c ∷ (blend x y ∷ []))
unfolding merge_list merge_from absorb join_all blend_all closes advance
merge_three d c x y e f g h i j k = rw (e, f, g, h, i, j, k) refl

-- The two holes after the packets 1 to `n`.
abbrev pub ahead : ℕ → ℕ → CirNode
ahead n last = record {
  first_seq = n + 1;
  last_seq = last;
  dat = pos (n * 1000);
  size = pos 63000;
  filled = false;
}

abbrev pub behind : ℕ → CirNode
behind n = record {
  first_seq = n;
  last_seq = n;
  dat = pos ((n - 1) * 1000);
  size = pos 1000;
  filled = false;
}

-- The buffer when `n` packets came and were read.
abbrev pub after : ℕ → ℕ → List ℕ → ℕ → SBuffer
after n last buf e = record {
  buffer = buf;
  ring = ahead n last ∷ (behind n ∷ []);
  dstart = n + 1;
  dend = e;
}

-- What is left when packet `n + 1` is put in.
abbrev pub left : ℕ → ℕ → CirNode
left n last = record {
  first_seq = n + 1 + 1;
  last_seq = last;
  dat = pos (n * 1000) +ℤ pos 1000;
  size = pos 63000 -ℤ pos 1000;
  filled = false;
}

module _ (n last : ℕ) (lo : 1 ≤ n) (hi : n ≤ 65) (far : n + 2 ≤ last) where
  holes_merged :
      merge_list (n + 1) (ahead n last ∷ (behind n ∷ [])) ≡ returns (ahead n last ∷ (behind n ∷ []))
  unfolding joins blends
  holes_merged = merge_two (n + 1) (ahead n last) (behind n) (ground arith) (ground arith)

  next_merged :
      merge_list (n + 1 + 1) (ahead (n + 1) 2147483647 ∷ (behind (n + 1) ∷ []))
      ≡ returns (ahead (n + 1) 2147483647 ∷ (behind (n + 1) ∷ []))
  unfolding joins blends
  next_merged =
      merge_two (n + 1 + 1) (ahead (n + 1) 2147483647) (behind (n + 1)) (ground arith)
        (ground arith)

  abbrev arrived : CirNode
  arrived = packet_node (n + 1) 1000 (pos (n * 1000))

  packet_merged :
      merge_list (n + 1) (arrived ∷ (left n last ∷ (behind n ∷ [])))
      ≡ returns (arrived ∷ (blend (left n last) (behind n) ∷ []))
  unfolding joins blends packet_node blend
  packet_merged =
      merge_three (n + 1) arrived (left n last) (behind n) (ground arith) (ground arith)
        (ground arith) (ground arith) (ground arith) (ground arith) (ground arith)

  next_hole : blend (left n last) (behind n) ≡ ahead (n + 1) 2147483647
  unfolding blend ◌+ℤ◌ ◌-ℤ◌
  next_hole =
      ap
        (λ (z : ℤ).
          let h : CirNode = record {
            first_seq = n + 1 + 1;
            last_seq = 2147483647;
            dat = z;
            size = pos 63000;
            filled = false;
          } in
          h)
        (ground arith)

  used : record arrived { filled = false } ≡ behind (n + 1)
  unfolding packet_node
  used =
      ap
        (λ (z : ℤ).
          let h : CirNode = record {
            first_seq = n + 1;
            last_seq = n + 1;
            dat = z;
            size = pos 1000;
            filled = false;
          } in
          h)
        (ap pos (omega arith))

  -- The buffer between the two calls.
  abbrev between : List ℕ → ℕ → SBuffer
  between buf e = record {
    buffer = buf;
    ring = arrived ∷ (ahead (n + 1) 2147483647 ∷ []);
    dstart = n + 1;
    dend = if ltb e (n + 1) then n + 1 else e;
  }

  module _ (buf bytes : List ℕ) (e : ℕ) where
    pub goes_in :
        add_data (n + 1) 1000 bytes (after n last buf e)
        ≡ store
            (n + 1)
            1000
            bytes
            (after n last buf e)
            []
            (split_hole (n + 1) 1000 (ahead n last))
            (behind n ∷ [])
    unfolding add_data scan fill fill_beginning
    goes_in = rw holes_merged (
        try_node_put _ _ _ _ (after n last buf e) _ _ _ (ground arith) (ground arith) refl
          (rw (==_refl (n + 1)) refl))

    pub put_between :
        (buf' : List ℕ)
        → write_packet buf (pos (n * 1000)) 1000 bytes ≡ returns buf'
        → add_data (n + 1) 1000 bytes (after n last buf e) ≡ returns (1, between buf' e)
    put_between buf' writes =
        goes_in ∙ unfold store split_hole packet_node in rw (writes, packet_merged, next_hole) refl

    pub read_between :
        (out : List ℕ)
        → read_packet buf (pos (n * 1000)) 1000 1000 ≡ returns out
        → request_data 1000 (between buf e)
          ≡ returns (out, after (n + 1) 2147483647 buf (if ltb e (n + 1) then n + 1 else e))
    unfolding request_data take_whole packet_node
    read_between out reads = rw (==_refl (n + 1), reads, used, next_merged) refl
