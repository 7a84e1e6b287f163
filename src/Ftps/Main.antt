-- ===== src/Ftps/Main.antt =====
-- `main` of ftps.c from its first to its last call: the requests, the name, the folder and the
-- file. A failing `RECV` is left out.
pub mod Saved
use project.Base.{
  ℕ, zero, suc, ◌+◌, ◌-◌, ◌^◌, Bool, true, false, List, [], ◌∷◌, ◌++◌, ltb, ◌==◌, length, take,
  drop, min, if◌then◌else◌,
}
use project.Words.{read_be32}
use project.TcpApi.{Kernel, Api, unused}
use project.Outcome.{Outcome, ok, fault, hangs, ◌>>=◌}
use project.Ftps.Setup.{open_socket, request}

-- Whether `stat` finds the folder, and which names `fopen` can open.
pub record Disk : Type 0 where
  pub has_folder : Bool
  pub can_open : List ℕ → Bool

-- What is done to the disk: `mkdir`, `fopen`, `fwrite` and `fclose`.
pub data Effect : Type 0 where
  made_folder closed : Effect
  opened wrote : List ℕ → Effect

-- `recvd/`
abbrev pub folder : List ℕ
folder = 114 ∷ 101 ∷ 99 ∷ 118 ∷ 100 ∷ 47 ∷ []

-- The characters in front of the end mark.
pub c_string : List ℕ → List ℕ
c_string [] = []
c_string (c ∷ cs) = let rest = c_string cs in if c == 0 then [] else c ∷ rest

-- `strcat` onto `recvd/` in an array of 20 bytes, which a name of more than 13 overruns.
pub output_name : List ℕ → Outcome (List ℕ)
output_name temp =
    let name = c_string temp in if ltb 13 (length name) then fault else ok (folder ++ name)

-- The loop that reads the header, each round with its request.
pub ask_header :
    Kernel → ℕ → List ℕ → ℕ → List ℕ → List ℕ → Api → Outcome (List ℕ × List ℕ × List ℕ × Api)
ask_header k sock at_hand zero databufin stream a = ok (databufin, stream, at_hand, a)
ask_header k sock [] (suc request_size) databufin stream a =
    request k sock (suc request_size) a >>= λ a'. hangs
ask_header k sock (n ∷ at_hand) (suc request_size) databufin stream a =
    let got = take (min n (suc request_size)) stream in
    request k sock (suc request_size) a >>= λ a'.
    ask_header k sock at_hand (suc request_size - length got) (databufin ++ got)
      (drop (min n (suc request_size)) stream) a'

-- The loop that writes the file, from `rval` bytes received so far; without a file `fwrite` is
-- given a null pointer.
pub ask_file :
    Kernel → ℕ → Bool → List ℕ → ℕ → ℕ → List ℕ → List Effect → Api → Outcome (List Effect × Api)
ask_file k sock is_open [] filesize rval stream done a =
    if ltb rval filesize then (request k sock 25 a >>= λ a'. hangs) else ok (done, a)
ask_file k sock is_open (n ∷ at_hand) filesize rval stream done a =
    let got = take (min n 25) stream in
    let rest : Outcome (List Effect × Api) = request k sock 25 a >>= λ a'.
    ask_file k sock is_open at_hand filesize (rval + length got) (drop (min n 25) stream)
      (done ++ (wrote got ∷ [])) a' in
    if ltb rval filesize
    then (if is_open then rest else (request k sock 25 a >>= λ a'. fault))
    else ok (done, a)

-- The length in the header as an `int`; a negative one ends the loop at once.
pub file_length : List ℕ → ℕ
file_length databufin = if ltb (read_be32 databufin 0) (2 ^ 31) then read_be32 databufin 0 else 0

-- The folder and the file.
pub open_file : Disk → List ℕ → List Effect
open_file disk path =
    (if disk.has_folder then [] else made_folder ∷ [])
    ++ (if disk.can_open path then opened path ∷ [] else [])

-- `main`
pub main : Kernel → Disk → List ℕ → List ℕ → Outcome (List Effect × Api)
main k disk at_hand stream = open_socket k unused >>= λ o.
    ask_header k o.0 at_hand 24 [] stream o.1 >>= λ h. output_name (drop 4 h.0) >>= λ path.
    ask_file k o.0 (disk.can_open path) h.2 (file_length h.0) 0 h.1 (open_file disk path) h.3
    >>= λ r. if disk.can_open path then ok (r.0 ++ (closed ∷ []), r.1) else fault
