-- ===== src/Link/Filled.antt =====
-- The first window of cbuffer.c as it comes about: blocks of 1000 bytes that tcpdc adds to the new
-- buffer make a packet each.
use project.Base.{
  ℕ, ◌+◌, ◌-◌, ◌*◌, ◌%◌, ◌≤◌, ◌<◌, ◌≡◌, refl, sym, ap, ap₂, ◌∙◌, Bool, true, false, List, [], ◌∷◌,
  ◌++◌, append_assoc, arith, length, length-append, All, All-append, ltb, lt→ltb, ◌==◌, take,
  take-length, subst, append-nil,
}
use project.CBuffer.{
  Buffer, PackNode, new_pack_node, space_left, free_acked, advance, move_window, distance, grow,
  cover, fill, fill_window, check_window, add_data,
}
use project.CBuffer.Space.{used, SameData, space_left-SameData, InRange}
use project.CBuffer.Ring.{contents}
use project.CBuffer.Chain.{total}
use project.CBuffer.Grow.{last, cover_lem}
use project.CBuffer.Invariant.{
  IsSound, IsValid, SameData-IsSound, move_window_lem, check_window-IsValid,
}
use project.CBuffer.Add.{
  written, written-IsSound, used-written, length-contents, add_data_accepts, add_data_room,
  write_data_fields,
}
use project.Ftpc.Blocks.{joined}
use project.Link.{IsWhole}
use project.Link.Pieces.{total-IsWhole}

-- A list, with the number that comes next, gets one whole packet more.
record OneMore (ns : List PackNode) (q : ℕ) (out : List PackNode × ℕ) : Type 0 where
  whole : All IsWhole out.0
  count : length out.0 ≡ length ns + 1
  next : out.1 ≡ q + 1

abbrev one_node : PackNode → ℕ → PackNode
one_node n q = new_pack_node ((n.dat + n.size) % 64000) 1000 q

grow_one : (n : PackNode) (q : ℕ) → grow 1000 n 1000 q ≡ (one_node n q ∷ [], q + 1)
unfolding grow
grow_one n q = refl

cover-OneMore :
    (q : ℕ) (n : PackNode) (r : List PackNode)
    → All IsWhole (n ∷ r)
    → OneMore (n ∷ r) q (cover (total (n ∷ r) + 1000) q n r)
cover-OneMore q n r w =
    let left : n.size + total r + 1000 - (n.size + total r) ≡ 1000 = omega arith in
    rw (cover_lem (total (n ∷ r) + 1000) q n r, left, grow_one (last n r) q)
      (record {
        whole = All-append IsWhole (n ∷ r) (one_node (last n r) q ∷ []) w ((refl, refl), tt);
        count = omega (arith, length-append (n ∷ r) (one_node (last n r) q ∷ []));
        next = refl;
      })

fill-OneMore :
    (s q : ℕ) (ns : List PackNode) → All IsWhole ns → OneMore ns q (fill (total ns + 1000) s q ns)
unfolding fill grow
fill-OneMore s q [] w = record { whole = ((refl, refl), tt); count = refl; next = refl }
fill-OneMore s q (n ∷ r) w = cover-OneMore q n r w

-- No packet is acknowledged, so none is freed.
free_acked_none :
    (s : ℕ) (e : Bool) (ns : List PackNode) → All IsWhole ns → free_acked s e ns ≡ (s, e, ns)
unfolding free_acked
free_acked_none s e [] w = refl
free_acked_none s e (n ∷ []) w = let waits : (n.ack == 2) ≡ false = ground arith in rw waits refl
free_acked_none s e (n ∷ (m ∷ r)) w =
    let waits : (n.ack == 2) ≡ false = ground (arith, w.0.0) in rw waits refl

advance_none : (b : Buffer) → All IsWhole b.nodes → advance b ≡ b
unfolding advance
advance_none b w = rw (free_acked_none b.dstart b.is_empty b.nodes w) refl

fill_window-OneMore :
    (b : Buffer) (dist : ℕ)
    → All IsWhole b.nodes
    → dist ≡ total b.nodes + 1000
    → let c = fill_window b dist in OneMore b.nodes b.packseq (c.nodes, c.packseq)
unfolding fill_window
fill_window-OneMore b dist w e =
    let some_left : ltb 0 (total b.nodes + 1000) ≡ true = lt→ltb 0 _ (omega arith) in
    rw (e, some_left) (fill-OneMore b.dstart b.packseq b.nodes w)

check_window-OneMore :
    (b : Buffer)
    → InRange b
    → All IsWhole b.nodes
    → used b ≡ total b.nodes + 1000
    → used b ≤ 20000
    → let c = check_window b in OneMore b.nodes b.packseq (c.nodes, c.packseq)
unfolding check_window
check_window-OneMore b v w e small =
    let same = move_window_lem b v in
    let m = move_window b in
    let dist : distance m ≡ total m.nodes + 1000 =
      same.1 ∙ omega (arith, e, ap total same.0.nodes_same) in
    let more =
      fill_window-OneMore m (distance m) (subst (All IsWhole) (sym same.0.nodes_same) w) dist in
    rw (advance_none b w) (
      subst
        (λ (t : List PackNode × ℕ).
          OneMore t.0 t.1
            ((fill_window m (distance m)).nodes, (fill_window m (distance m)).packseq))
        (ap₂ (λ (x : List PackNode) (y : ℕ). (x, y)) same.0.nodes_same same.0.packseq_same) more)

-- The buffer after `count` blocks.
pub record Filling (count : ℕ) (b : Buffer) : Type 0 where
  pub valid : IsValid b
  pub whole : All IsWhole b.nodes
  pub count_is : length b.nodes ≡ count
  pub next_is : b.packseq ≡ count + 1
  pub used_is : used b ≡ count * 1000

pub add_data-Filling :
    (count : ℕ) (b : Buffer) (bytes : List ℕ)
    → Filling count b
    → count < 20
    → length bytes ≡ 1000
    → let c = (add_data b bytes 1000).1 in
      Filling (count + 1) c × (contents c ≡ contents b ++ bytes)
add_data-Filling count b bytes v few len =
    subst (λ (c : Buffer). Filling (count + 1) c × (contents c ≡ contents b ++ bytes)) (sym taken)
      (
        record {
          valid = check_window-IsValid w w-IsSound;
          whole = more.whole;
          count_is = more.count ∙ omega (arith, ap length w_nodes, v.count_is);
          next_is = more.next ∙ omega (arith, fields.2, same.packseq_same, v.next_is);
          used_is =
              sym (length-contents (check_window w))
              ∙ ap length held
              ∙ omega (arith, length-append (contents b) bytes, length-contents b, v.used_is);
        },
        held,
      )
  where
    room : used b + 1000 ≤ 64000
    room = omega (arith, v.used_is)

    same : SameData b (space_left b).1
    same = space_left-SameData b

    sound : IsSound (space_left b).1
    sound = SameData-IsSound b (space_left b).1 same v.valid.sound

    room' : used (space_left b).1 + 1000 ≤ 64000
    room' = rw same.used_same room

    w : Buffer
    w = written (space_left b).1 bytes 1000

    w-IsSound : IsSound w
    w-IsSound = written-IsSound (space_left b).1 sound bytes 1000 (omega arith) (omega arith) room'

    taken : (add_data b bytes 1000).1 ≡ check_window w
    taken = ap (λ (o : ℕ × Buffer). o.1) (add_data_accepts b bytes 1000 v.valid.sound.range room)

    fields :
        (w.dstart ≡ (space_left b).1.dstart)
        × (w.nodes ≡ (space_left b).1.nodes)
        × (w.packseq ≡ (space_left b).1.packseq)
        × (w.dend ≤ 64000)
        × (length w.cirbuffer ≡ length (space_left b).1.cirbuffer)
    fields = write_data_fields (space_left b).1 bytes 1000 sound.range (omega arith)

    w_nodes : w.nodes ≡ b.nodes
    w_nodes = fields.1 ∙ same.nodes_same

    w_total : total w.nodes ≡ count * 1000
    w_total = ap total w_nodes ∙ total-IsWhole b.nodes v.whole ∙ ap (λ (n : ℕ). n * 1000) v.count_is

    w_used : used w ≡ total w.nodes + 1000
    w_used =
        used-written (space_left b).1 bytes 1000 sound.range room' (omega arith)
        ∙ omega (arith, same.used_same, v.used_is, w_total)

    more : OneMore w.nodes w.packseq ((check_window w).nodes, (check_window w).packseq)
    more =
        check_window-OneMore w w-IsSound.range (subst (All IsWhole) (sym w_nodes) v.whole) w_used
          (omega (arith, w_used, w_total))

    held : contents (check_window w) ≡ contents b ++ bytes
    held =
        ap contents (sym taken)
        ∙ (add_data_room b bytes 1000 v.valid (omega arith) (omega arith) room).1
        ∙ ap (λ (l : List ℕ). contents b ++ l)
            (subst (λ (n : ℕ). take n bytes ≡ bytes) len (take-length bytes))

-- tcpdc adds these blocks, of 1000 bytes each.
pub add_blocks : List (List ℕ) → Buffer → Buffer
add_blocks [] b = b
add_blocks (block ∷ blocks) b = add_blocks blocks (add_data b block 1000).1

pub add_blocks-Filling :
    (blocks : List (List ℕ)) (count : ℕ) (b : Buffer)
    → Filling count b
    → All (λ block. length block ≡ 1000) blocks
    → count + length blocks ≤ 20
    → Filling (count + length blocks) (add_blocks blocks b)
      × (contents (add_blocks blocks b) ≡ contents b ++ joined blocks)
unfolding add_blocks
add_blocks-Filling [] count b v all few =
    (subst (λ (n : ℕ). Filling n b) (omega arith) v, sym (append-nil (contents b)))
add_blocks-Filling (block ∷ blocks) count b v all few =
    let (v', held) = add_data-Filling count b block v (omega arith) all.0 in
    let (v'', held') =
      add_blocks-Filling blocks (count + 1) (add_data b block 1000).1 v' all.1 (omega arith) in
    (
      subst (λ (n : ℕ). Filling n (add_blocks blocks (add_data b block 1000).1)) (omega arith) v'',
      held'
          ∙ ap (λ (l : List ℕ). l ++ joined blocks) held
          ∙ append_assoc (contents b) block (joined blocks),
    )
