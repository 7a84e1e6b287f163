-- ===== src/Ftpc/Blocks.antt =====
-- What ftpc.c sends, put together.
use project.Base.{
  ℕ, zero, suc, ◌≤◌, ◌≡◌, refl, ap, ◌∙◌, List, [], ◌∷◌, ◌++◌, append_assoc, append-nil, arith, ltb,
  length, length-take, length-drop, length-append, length-replicate, take, drop, replicate, All,
  Bool-cases, inl, inr, ltb→lt,
}
use project.Ftpc.{blocks, header, send_file}

-- The stream that the blocks make.
abbrev pub joined : List (List ℕ) → List ℕ
joined [] = []
joined (b ∷ bs) = b ++ joined bs

pub take-drop : (n : ℕ) (xs : List ℕ) → take n xs ++ drop n xs ≡ xs
take-drop zero xs = refl
take-drop (suc n) [] = refl
take-drop (suc n) (x ∷ xs) = ap (λ (l : List ℕ). x ∷ l) (take-drop n xs)

take_whole : (n : ℕ) (xs : List ℕ) → length xs ≤ n → take n xs ≡ xs
take_whole zero [] h = refl
take_whole zero (x ∷ xs) h = absurd (omega arith)
take_whole (suc n) [] h = refl
take_whole (suc n) (x ∷ xs) h = ap (λ (l : List ℕ). x ∷ l) (take_whole n xs (omega arith))

blocks_lem :
    (fuel : ℕ) (file : List ℕ)
    → length file ≤ fuel
    → (joined (blocks fuel file) ≡ file) × All (λ b. length b ≤ 1000) (blocks fuel file)
unfolding blocks
blocks_lem zero file h =
    (append-nil _ ∙ take_whole 1000 file (omega arith), (omega (arith, length-take 1000 file), tt))
blocks_lem (suc fuel) file h = elim (Bool-cases (ltb (length file) 1000)) [
  | inl short ↦ rw short (
    append-nil _ ∙ take_whole 1000 file (ground arith),
    (omega (arith, length-take 1000 file), tt),
  )
  | inr long ↦
      let ih = blocks_lem fuel (drop 1000 file) (ground (arith, length-drop 1000 file)) in
      rw long (
        ap (λ (l : List ℕ). take 1000 file ++ l) ih.0 ∙ take-drop 1000 file,
        (omega (arith, length-take 1000 file), ih.1),
      )
]

pub length-header : (file_size : ℕ) (filename : List ℕ) → length (header file_size filename) ≡ 24
unfolding header
length-header file_size filename = omega (
  arith,
  length-append filename (replicate 20 0),
  length-replicate {A = ℕ} 20 0,
  length-take 20 (filename ++ replicate 20 0),
)

pub send_file-joined :
    (file_size : ℕ) (filename file : List ℕ)
    → let sent = send_file file_size filename file in
      (joined sent ≡ header file_size filename ++ file) × All (λ b. length b ≤ 1000) sent
unfolding send_file
send_file-joined file_size filename file =
    let h = length-header file_size filename in
    let fits : length (header file_size filename ++ take 976 file) ≤ 1000 =
      omega (
        arith,
        h,
        length-append (header file_size filename) (take 976 file),
        length-take 976 file,
      ) in
    elim (Bool-cases (ltb (length file) 976)) [
      | inl short ↦ rw short (
        append-nil _
            ∙ ap (λ (l : List ℕ). header file_size filename ++ l)
                (take_whole 976 file (omega (arith, ltb→lt _ _ short))),
        (fits, tt),
      )
      | inr long ↦
          let rest =
            blocks_lem (length file) (drop 976 file) (omega (arith, length-drop 976 file)) in
          rw long (
            append_assoc (header file_size filename) (take 976 file) _
                ∙ ap (λ (l : List ℕ). header file_size filename ++ l)
                    (ap (λ (l : List ℕ). take 976 file ++ l) rest.0 ∙ take-drop 976 file),
            (fits, rest.1),
          )
    ]
