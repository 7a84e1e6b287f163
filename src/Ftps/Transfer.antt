-- ===== src/Ftps/Transfer.antt =====
-- How ftps.c takes what ftpc.c sends.
use project.Base.{
  ℕ, zero, suc, ◌+◌, ◌-◌, ◌^◌, ◌≤◌, ◌<◌, ◌≡◌, refl, ap, ap₂, ◌∙◌, some, List, [], ◌∷◌, ◌++◌,
  append_assoc, append-nil, take_front, drop_front, arith, min, length, length-take, length-drop,
  length-append, take, drop, replicate, All, lt→ltb, ge→ltb,
}
use project.Words.{read_be32}
use project.Ftpc.{header, send_file}
use project.Ftpc.Blocks.{joined, take-drop, length-header, send_file-joined}
use project.Ftps.{read_header, write_file, receive_body, receive_file}

take_nil : (n : ℕ) → take {A = ℕ} n [] ≡ []
take_nil zero = refl
take_nil (suc n) = refl

drop_nil : (n : ℕ) → drop {A = ℕ} n [] ≡ []
drop_nil zero = refl
drop_nil (suc n) = refl

take_split : (k m : ℕ) (xs : List ℕ) → k ≤ m → take k xs ++ take (m - k) (drop k xs) ≡ take m xs
take_split zero m xs h = let e : m - 0 ≡ m = omega arith in rw e
take_split (suc k) zero xs h = absurd (omega arith)
take_split (suc k) (suc m) [] h = take_nil (suc m - suc k)
take_split (suc k) (suc m) (x ∷ xs) h =
    let e : suc m - suc k ≡ m - k = omega arith in
    rw e (ap (λ (l : List ℕ). x ∷ l) (take_split k m xs (omega arith)))

drop_split : (k m : ℕ) (xs : List ℕ) → k ≤ m → drop (m - k) (drop k xs) ≡ drop m xs
drop_split zero m xs h = let e : m - 0 ≡ m = omega arith in rw e
drop_split (suc k) zero xs h = absurd (omega arith)
drop_split (suc k) (suc m) [] h = drop_nil (suc m - suc k)
drop_split (suc k) (suc m) (x ∷ xs) h =
    let e : suc m - suc k ≡ m - k = omega arith in rw e (drop_split k m xs (omega arith))

-- How the header loop ends: the bytes asked for are read, with at most one answer for each.
record HeaderRead (at_hand : List ℕ) (size : ℕ) (buf stream : List ℕ) : Type 0 where
  left : List ℕ
  ends :
      read_header at_hand size buf stream ≡ some (buf ++ take size stream, drop size stream, left)
  answers : length at_hand ≤ length left + size
  some_each : All (λ n. 1 ≤ n) left

read_header_lem :
    (at_hand : List ℕ) (size : ℕ) (buf stream : List ℕ)
    → All (λ n. 1 ≤ n) at_hand
    → size ≤ length at_hand
    → size ≤ length stream
    → HeaderRead at_hand size buf stream
unfolding read_header
read_header_lem at_hand zero buf stream a h k = record {
  left = at_hand;
  ends = rw (append-nil buf);
  answers = omega arith;
  some_each = a;
}
read_header_lem [] (suc size) buf stream a h k = absurd (omega arith)
read_header_lem (n ∷ at_hand) (suc size) buf stream a h k =
    let got = take n' stream in
    let len : length got ≡ n' = omega (arith, length-take n' stream) in
    let v =
      read_header_lem at_hand (suc size - length got) (buf ++ got) (drop n' stream) a.1
        (omega (arith, len, a.0)) (omega (arith, len, length-drop n' stream)) in
    record {
      left = v.left;
      ends =
          v.ends
          ∙ ap₂ (λ (x y : List ℕ). some (x, y, v.left))
              (rw len (
                append_assoc buf got _
                ∙ ap (λ (l : List ℕ). buf ++ l) (take_split n' (suc size) stream (omega arith))))
              (rw len (drop_split n' (suc size) stream (omega arith)));
      answers = omega (arith, v.answers, len, a.0);
      some_each = v.some_each;
    }
  where
    n' : ℕ
    n' = min n (suc size)

write_file_lem :
    (at_hand : List ℕ) (filesize : ℕ) (written stream : List ℕ)
    → All (λ n. 1 ≤ n) at_hand
    → length stream ≤ length at_hand
    → length written + length stream ≡ filesize
    → write_file at_hand filesize written stream ≡ some (written ++ stream)
unfolding write_file
write_file_lem [] filesize written [] a h e =
    rw (ge→ltb (length written) filesize (omega arith), append-nil written)
write_file_lem [] filesize written (x ∷ stream) a h e = absurd (omega arith)
write_file_lem (n ∷ at_hand) filesize written [] a h e =
    rw (ge→ltb (length written) filesize (omega arith), append-nil written)
write_file_lem (n ∷ at_hand) filesize written (x ∷ stream) a h e =
    let all = x ∷ stream in
    rw (lt→ltb (length written) filesize (omega arith)) (
      write_file_lem at_hand filesize (written ++ take (min n 25) all) (drop (min n 25) all) a.1
        (omega (arith, length-drop (min n 25) all, a.0))
        (omega (
          arith,
          length-append written (take (min n 25) all),
          length-take (min n 25) all,
          length-drop (min n 25) all,
        ))
      ∙ ap (λ (l : List ℕ). some l)
          (append_assoc written (take (min n 25) all) (drop (min n 25) all)
            ∙ ap (λ (l : List ℕ). written ++ l) (take-drop (min n 25) all)))

pub header_size :
    (size : ℕ) (filename : List ℕ)
    → size < 2 ^ 31
    → (read_be32 (header size filename) 0 ≡ size)
      × (drop 4 (header size filename) ≡ take 20 (filename ++ replicate 20 0))
unfolding read_be32 header
header_size size filename h = (omega arith, refl)

-- Enough answers for the header and the file.
pub record BothRead (at_hand filename file : List ℕ) : Type 0 where
  pub left : List ℕ
  pub header_read :
      read_header at_hand 24 [] (joined (send_file (length file) filename file))
      ≡ some (header (length file) filename, file, left)
  pub file_read : write_file left (length file) [] file ≡ some file

pub both_lem :
    (at_hand filename file : List ℕ)
    → All (λ n. 1 ≤ n) at_hand
    → 24 + length file ≤ length at_hand
    → BothRead at_hand filename file
both_lem at_hand filename file a enough = record {
  left = v.left;
  header_read =
      ap (read_header at_hand 24 []) (send_file-joined (length file) filename file).0
      ∙ v.ends
      ∙ ap₂ (λ (x y : List ℕ). some (x, y, v.left)) (take_front 24 top file size)
          (drop_front 24 top file size);
  file_read =
      write_file_lem v.left (length file) [] file v.some_each (omega (arith, v.answers))
        (omega arith);
}
  where
    top : List ℕ
    top = header (length file) filename

    size : length top ≡ 24
    size = length-header (length file) filename

    v : HeaderRead at_hand 24 [] (top ++ file)
    v =
        read_header_lem at_hand 24 [] (top ++ file) a (omega arith)
          (omega (arith, size, length-append top file))

-- If the file is shorter than 2^31 bytes, every answer has at least a byte and there are at least
-- as many answers as bytes to come, ftps ends with the file that ftpc sent, and with its name,
-- cut or filled with zeros to twenty bytes.
pub receive_file-send_file :
    (at_hand filename file : List ℕ)
    → All (λ n. 1 ≤ n) at_hand
    → 24 + length file ≤ length at_hand
    → length file < 2 ^ 31
    → receive_file at_hand (joined (send_file (length file) filename file))
      ≡ some (take 20 (filename ++ replicate 20 0), file)
unfolding receive_file receive_body
receive_file-send_file at_hand filename file a enough small =
    let v = both_lem at_hand filename file a enough in
    let head = header_size (length file) filename small in
    rw (v.header_read, receive_file, head.0, lt→ltb (length file) (2 ^ 31) small, v.file_read)
      (ap (λ (l : List ℕ). some (l, file)) head.1)
