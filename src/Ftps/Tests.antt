-- ===== src/Ftps/Tests.antt =====
-- The transfer at a concrete file.
use project.Base.{
  ℕ, zero, suc, ◌≤◌, ◌≡◌, refl, true, false, some, map, List, [], ◌∷◌, ◌++◌, arith, All, length,
  take, replicate,
}
use project.Ftpc.{send_file}
use project.Ftpc.Blocks.{joined}
use project.Ftps.{receive_file}
use project.TcpApi.{Kernel, Api, inet, local_host}
use project.Outcome.{ok}
use project.Ftps.Main.{Disk, made_folder, closed, opened, wrote, folder, main}
use project.Ftps.Main.Saved.{main-send_file_saved}
use project.Ftps.Transfer.{receive_file-send_file}

abbrev name : List ℕ
name = 97 ∷ 46 ∷ 99 ∷ []

abbrev contents : List ℕ
contents = 104 ∷ 105 ∷ 10 ∷ []

abbrev ones : ℕ → List ℕ
ones zero = []
ones (suc n) = 1 ∷ ones n

ones-All : (n : ℕ) → All (λ k. 1 ≤ k) (ones n)
ones-All zero = tt
ones-All (suc n) = (omega arith, ones-All n)

three_bytes_received :
    receive_file (ones 30) (joined (send_file (length contents) name contents))
    ≡ some (take 20 (name ++ replicate 20 0), contents)
three_bytes_received =
    receive_file-send_file (ones 30) name contents (ones-All 30) (omega arith) (omega arith)

abbrev willing : Kernel
willing = record { socket = λ n. some 3; bind = λ fd addr. true; refused = λ n. false }

abbrev empty_disk : Disk
empty_disk = record { has_folder = false; can_open = λ path. true }

main-send_file_saved_example :
    (pieces : List (List ℕ)) × (a : Api) × (main willing empty_disk
        (ones 30)
        (joined (send_file (length contents) name contents))
      ≡ ok (
        ((made_folder ∷ []) ++ (opened (folder ++ name) ∷ [])) ++ map wrote pieces ++ (closed ∷ []),
        a,
      ))
    × (joined pieces ≡ contents)
    × All (λ b. length b ≤ 25) pieces
    × All (λ m. (m.0 ≡ some 3) × (m.1 ≡ inet 5050 local_host)) a.outbox
main-send_file_saved_example =
    main-send_file_saved willing empty_disk 3 (ones 30) name contents refl (λ n. refl) refl
      (omega arith, (omega arith, (omega arith, tt))) (omega arith) (omega arith) (ones-All 30)
      (omega arith)
