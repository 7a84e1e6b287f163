-- ===== src/Sender/Slide.antt =====
-- The window of cbuffer.c while the acknowledgements of its packets come in.
use project.Base.{
  ℕ, zero, suc, ◌+◌, ◌-◌, ◌≤◌, ◌<◌, ◌≡◌, refl, sym, ap, ◌∙◌, inr, Option, none, some, List, [], ◌∷◌,
  arith, length, drop, All,
}
use native.Mathlib.Decide.{dec_lt}
use project.CBuffer.{Buffer, PackNode, new_pack_node, check_window}
use project.CBuffer.Space.{used_eq}
use project.CBuffer.Ring.{contents}
use project.CBuffer.Chain.{Chain, HeadWaits}
use project.CBuffer.Shorten.{freed}
use project.CBuffer.Invariant.{IsSound, IsValid, check_window-IsValid, check_window-Moved}
use project.CBuffer.Add.{contents-check_window}
use project.CBuffer.Renew.{below, Renewed, check_window-Renewed}
use project.Sender.Restamp.{blank, restamped-IsSound, Restamps}
use project.Sender.Tracks.{In, Tracks, Acked, below-blank, below_of_Chain}

drop-nil : (k : ℕ) → drop {A = ℕ} k [] ≡ []
drop-nil zero = refl
drop-nil (suc k) = refl

drop-drop : (g k : ℕ) (xs : List ℕ) → drop k (drop g xs) ≡ drop (g + k) xs
drop-drop zero k xs = let e : 0 + k ≡ k = omega arith in rw e refl
drop-drop (suc g) k [] = drop-nil k ∙ sym (drop-nil (suc g + k))
drop-drop (suc g) k (x ∷ xs) =
    let e : suc g + k ≡ suc (g + k) = omega arith in rw e (drop-drop g k xs)

-- The acknowledgements that came are for packets below the limit.
abbrev pub AreBelow : ℕ → List ℕ → Type 0
AreBelow limit came = (k : ℕ) → In k came → k < limit

-- Of the bytes `held` at first, of which the packets below the limit had `all`, the first `gone` are
-- given up.
pub record Slid (limit all : ℕ) (held : List ℕ) (came : List ℕ) (b : Buffer) : Type 0 where
  pub inside : b.dend < 64000
  pub valid : IsValid b
  pub gone : ℕ
  pub kept : contents b ≡ drop gone held
  pub balance : below limit b.nodes + gone ≡ all
  pub beyond : limit ≤ b.packseq
  pub tracked : All (Tracks came) b.nodes

module _ (limit all : ℕ) (held : List ℕ) (num : ℕ) (came : List ℕ)
    (small : AreBelow limit (num ∷ came)) where
  Slid-marked :
      (b : Buffer) (ns : List PackNode)
      → Slid limit all held came b
      → blank ns ≡ blank b.nodes
      → All (Tracks (num ∷ came)) ns
      → Slid limit all held (num ∷ came) (check_window (record b { nodes = ns }))
  Slid-marked b ns v same t = record {
    inside = rw (check_window-Moved marked sound).dend_kept v.inside;
    valid = check_window-IsValid marked sound;
    gone = v.gone + freed ns;
    kept =
        contents-check_window marked sound (inr (inr v.inside))
        ∙ ap (drop (freed ns)) (unmarked ∙ v.kept)
        ∙ drop-drop v.gone (freed ns) held;
    balance = omega (
      arith,
      w.balance,
      v.balance,
      sym (below-blank limit ns) ∙ ap (below limit) same ∙ below-blank limit b.nodes,
    );
    beyond = w.beyond;
    tracked = w.all;
  }
    where
      marked : Buffer
      marked = record b { nodes = ns }

      sound : IsSound marked
      sound = restamped-IsSound b ns same v.valid.sound

      unmarked : contents marked ≡ contents b
      unmarked = let u = used_eq b marked refl refl refl in unfold contents in rw u refl

      fresh : (dat size q : ℕ) → limit ≤ q → Tracks (num ∷ came) (new_pack_node dat size q)
      fresh dat size q h = (λ e. cc, λ i. absurd (omega (arith, small q i)))

      below_limit : (n : PackNode) → Tracks (num ∷ came) n → n.ack ≡ 2 → n.seqnum < limit
      below_limit n t' two = small n.seqnum (t'.0 two)

      w : Renewed limit (Tracks (num ∷ came)) fresh below_limit marked (check_window marked)
      w = check_window-Renewed limit (Tracks (num ∷ came)) fresh below_limit marked v.beyond t

  -- The buffer when the number is looked for.
  pub Slid-acknowledge :
      (b : Buffer)
      → Slid limit all held came b
      → (o : Option (List PackNode)) → Restamps b.nodes o
      → Acked num came b.nodes o
      → Slid limit all held
          (num ∷ came)
          (elim o [ none ↦ b | some ns ↦ check_window (record b { nodes = ns }) ])
  Slid-acknowledge b v none same t = record {
    inside = v.inside;
    valid = v.valid;
    gone = v.gone;
    kept = v.kept;
    balance = v.balance;
    beyond = v.beyond;
    tracked = t;
  }
  Slid-acknowledge b v (some ns) same t = Slid-marked b ns v same t

-- When all came, all that was there at first is gone.
pub Slid-all :
    (limit all : ℕ) (held came : List ℕ) (b : Buffer)
    → Slid limit all held came b
    → ((k : ℕ) → 1 ≤ k → k < limit → In k came)
    → contents b ≡ drop all held
Slid-all limit all held came b v every =
    v.kept
    ∙ ap (λ (n : ℕ). drop n held)
        (omega (arith, v.balance, nothing b.nodes v.valid.sound.chain v.valid.waits v.tracked))
  where
    first : 1 ≤ b.packseq - length b.nodes
    first = omega (arith, v.valid.sound.numbered)

    nothing :
        (ns : List PackNode)
        → Chain b.dstart (b.packseq - length b.nodes) ns
        → HeadWaits ns
        → All (Tracks came) ns
        → below limit ns ≡ 0
    nothing [] c w t = refl
    nothing (n ∷ r) c w t = elim (dec_lt n.seqnum limit) [
      | yes l ↦ absurd (w (t.0.1 (every n.seqnum (omega (arith, c.3, first)) l)))
      | no g ↦
          below_of_Chain limit b.dstart (b.packseq - length b.nodes) (n ∷ r) c (omega (arith, c.3))
    ]
