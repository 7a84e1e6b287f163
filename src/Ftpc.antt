-- ===== src/Ftpc.antt =====
-- ftpc.c: the blocks that `sendFile` makes of a file. Setup has the sockets and the answer that is
-- waited for after each block. Printing is left out.
pub mod Blocks
pub mod Setup
mod Tests
use project.Base.{
  ℕ, zero, suc, ◌+◌, ◌-◌, Bool, true, false, List, [], ◌∷◌, ◌++◌, ltb, length, take, drop,
  replicate, if◌then◌else◌,
}
use project.Words.{be32}

-- The file behind what has been read, in blocks of 1000 bytes. `feof` holds once a read came back
-- short; each round that goes on takes bytes off the file, so its length is fuel enough.
pub blocks : ℕ → List ℕ → List (List ℕ)
blocks zero file = take 1000 file ∷ []
blocks (suc fuel) file =
    let rest = blocks fuel (drop 1000 file) in
    if ltb (length file) 1000 then take 1000 file ∷ [] else take 1000 file ∷ rest

-- The 24 bytes of the header: the length of the file, and what of its name, in a zeroed buffer, the
-- data behind it leave.
unfoldable pub header : ℕ → List ℕ → List ℕ
header file_size filename = be32 file_size ++ take 20 (filename ++ replicate 20 0)

-- `sendFile`
pub send_file : ℕ → List ℕ → List ℕ → List (List ℕ)
send_file file_size filename file =
    let first = header file_size filename ++ take (1000 - 24) file in
    if ltb (length file) (1000 - 24)
    then first ∷ []
    else first ∷ blocks (length file) (drop (1000 - 24) file)
