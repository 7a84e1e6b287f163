-- ===== src/Ftpc/Setup/Delivery.antt =====
-- `main` of ftpc.c with the sockets' calls: what goes out, and where to.
use project.Base.{
  ℕ, ◌+◌, ◌≡◌, refl, false, some, Option, List, [], ◌∷◌, ◌++◌, map, ltb, length, if◌then◌else◌,
}
use project.TcpApi.{Kernel, Api, send}
use project.Outcome.{Outcome, ok, hangs}

-- A block as it leaves.
abbrev pub sent_to : ℕ → List ℕ → List ℕ → Option ℕ × List ℕ × List ℕ
sent_to fd dest block = (some fd, dest, block)

module _ (k : Kernel) (never : (n : ℕ) → k.refused n ≡ false) (fd : ℕ) where
  pub send_lem :
      (b : List ℕ) (a : Api)
      → send k (some fd) b a ≡ (
        false,
        record a { sends = a.sends + 1; outbox = a.outbox ++ (sent_to fd a.dest_addr b ∷ []) },
      )
  unfolding send
  send_lem b a = rw (never a.sends) refl

  -- The blocks as they leave, and the end of the call, for which as many answers must come.
  record Delivers (bs : List (List ℕ)) (answers : ℕ) (a : Api) (out : Outcome Api) : Type 0 where
    sent : Api
    ends : out ≡ (if ltb answers (length bs) then hangs else ok sent)
    outbox_is : sent.outbox ≡ a.outbox ++ map (sent_to fd a.dest_addr) bs
    bound_is : sent.bound ≡ a.bound

  after : List ℕ → Api → Api
  after b a = record a { sends = a.sends + 1; outbox = a.outbox ++ (sent_to fd a.dest_addr b ∷ []) }
