-- ===== src/Ftpc/Tests.antt =====
-- What is sent for a concrete file.
use project.Base.{◌%◌, ◌^◌, true, false, some, refl, ◌≡◌, [], ◌∷◌, length, ltb}
use project.Ftpc.{send_file}
use project.TcpApi.{Kernel}

abbrev generous : Kernel
generous = record { socket = λ n. some n; bind = λ fd addr. true; refused = λ n. false }

answered : ltb 1 (length (send_file (3 % 2 ^ 32) (97 ∷ 46 ∷ 99 ∷ []) (104 ∷ 105 ∷ 10 ∷ []))) ≡ false
unfolding send_file
answered = refl
