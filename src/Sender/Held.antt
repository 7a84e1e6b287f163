-- ===== src/Sender/Held.antt =====
-- The end of the client's stream that cbuffer.c holds, and what changes of the packet list do to it.
use project.Base.{
  ℕ, zero, suc, ◌<◌, ◌≡◌, refl, sym, ap, ◌∙◌, List, [], ◌∷◌, ◌++◌, drop, take, append_assoc, inr,
}
use project.CBuffer.{Buffer, PackNode, check_window}
use project.CBuffer.Space.{used_eq}
use project.CBuffer.Ring.{contents}
use project.CBuffer.Chain.{HeadWaits}
use project.CBuffer.Shorten.{freed}
use project.CBuffer.Invariant.{IsSound, IsValid, check_window-IsValid, check_window-Moved}
use project.CBuffer.Add.{contents-check_window}
use project.Sender.Restamp.{blank, restamped-IsSound, restamped-IsValid}

-- A valid buffer, whose data do not end with the array, holds the end of all that it was given.
pub record Holds (given : List ℕ) (b : Buffer) : Type 0 where
  pub inside : b.dend < 64000
  pub valid : IsValid b
  pub gone : List ℕ
  pub all : given ≡ gone ++ contents b

pub Holds-nodes :
    (given : List ℕ) (b : Buffer) (ns : List PackNode)
    → blank ns ≡ blank b.nodes
    → HeadWaits ns
    → Holds given b
    → Holds given (record b { nodes = ns })
Holds-nodes given b ns same w h = record {
  inside = h.inside;
  valid = restamped-IsValid b ns same w h.valid;
  gone = h.gone;
  all = h.all ∙ ap (λ (x : List ℕ). h.gone ++ x) (sym held);
}
  where
    held : contents (record b { nodes = ns }) ≡ contents b
    held =
        let u = used_eq b (record b { nodes = ns }) refl refl refl in unfold contents in rw u refl

split_at : (k : ℕ) (xs : List ℕ) → xs ≡ take k xs ++ drop k xs
split_at zero xs = refl
split_at (suc k) [] = refl
split_at (suc k) (x ∷ xs) = ap (λ (t : List ℕ). x ∷ t) (split_at k xs)

-- An acknowledgement gives up a first part of what is held.
pub Holds-acknowledged :
    (given : List ℕ) (b : Buffer) (ns : List PackNode)
    → blank ns ≡ blank b.nodes
    → Holds given b
    → Holds given (check_window (record b { nodes = ns }))
Holds-acknowledged given b ns same h = record {
  inside = rw (check_window-Moved marked sound).dend_kept h.inside;
  valid = check_window-IsValid marked sound;
  gone = h.gone ++ take k (contents b);
  all =
      h.all
      ∙ ap (λ (x : List ℕ). h.gone ++ x) (split_at k (contents b))
      ∙ sym (append_assoc h.gone (take k (contents b)) (drop k (contents b)))
      ∙ ap (λ (x : List ℕ). (h.gone ++ take k (contents b)) ++ x) (sym left);
}
  where
    marked : Buffer
    marked = record b { nodes = ns }

    sound : IsSound marked
    sound = restamped-IsSound b ns same h.valid.sound

    k : ℕ
    k = freed ns

    held : contents marked ≡ contents b
    held = let u = used_eq b marked refl refl refl in unfold contents in rw u refl

    left : contents (check_window marked) ≡ drop k (contents b)
    left = contents-check_window marked sound (inr (inr h.inside)) ∙ ap (drop k) held
