-- ===== src/Ftps/Main/Saved.antt =====
-- What ftps.c has saved at its end.
use project.Base.{
  ℕ, zero, suc, ◌+◌, ◌^◌, ◌≤◌, ◌<◌, ◌≡◌, refl, sym, ap, ◌∙◌, true, false, Option, some, List, [],
  ◌∷◌, ◌++◌, append_assoc, append-nil, map, arith, All, All-append, ltb, ◌==◌, length,
  length-append, length-take, take, drop, replicate, replicate_more, min, if◌then◌else◌, Bool-cases,
  inl, inr, ge→ltb, lt→ltb,
}
use project.Words.{le32}
use project.TcpApi.{
  Kernel, Api, inet, local_host, any_address, unused, socket, bind, set_send_address,
}
use project.Outcome.{ok}
use project.Ftpc.{header, send_file}
use project.Ftpc.Blocks.{joined}
use project.Ftpc.Setup.Delivery.{send_lem}
use project.Ftps.{read_header, write_file}
use project.Ftps.Setup.{open_socket, request}
use project.Ftps.Transfer.{both_lem, header_size}
use project.Ftps.Main.{
  Disk, Effect, made_folder, closed, opened, wrote, folder, c_string, output_name, ask_header,
  ask_file, file_length, open_file, main,
}

-- Everything sent so far went to port 5050 of this machine, and so will the next.
record Asks (sock : ℕ) (a : Api) : Type 0 where
  dest_is : a.dest_addr ≡ inet 5050 local_host
  sent : All (λ m. (m.0 ≡ some sock) × (m.1 ≡ inet 5050 local_host)) a.outbox

module _ (k : Kernel) (never : (n : ℕ) → k.refused n ≡ false) (sock : ℕ) where
  request-Asks :
      (size : ℕ) (a : Api)
      → Asks sock a
      → (a' : Api) × (request k sock size a ≡ ok a') × Asks sock a'
  unfolding request
  request-Asks size a v =
      let m : Option ℕ × List ℕ × List ℕ = (some sock, a.dest_addr, le32 size) in
      (
        record a { sends = a.sends + 1; outbox = a.outbox ++ (m ∷ []) },
        rw (send_lem k never sock (le32 size) a) refl,
        record {
          dest_is = v.dest_is;
          sent = All-append _ a.outbox (m ∷ []) v.sent ((refl, v.dest_is), tt);
        },
      )

  -- With its requests the loop reads the same.
  ask_header-Asks :
      (at_hand : List ℕ) (size : ℕ) (buf stream : List ℕ) (a : Api) (h : List ℕ × List ℕ × List ℕ)
      → read_header at_hand size buf stream ≡ some h
      → Asks sock a
      → (a' : Api) × (ask_header k sock at_hand size buf stream a ≡ ok (h.0, h.1, h.2, a'))
        × Asks sock a'
  unfolding read_header ask_header
  ask_header-Asks at_hand zero buf stream a h e v = (a, cc, v)
  ask_header-Asks [] (suc size) buf stream a h e v = cc
  ask_header-Asks (n ∷ at_hand) (suc size) buf stream a h e v =
      let (a1, asked, v1) = request-Asks (suc size) a v in
      let (a2, runs, v2) = ask_header-Asks at_hand _ _ _ a1 h e v1 in (a2, rw asked runs, v2)

  -- What is written in this run is written in pieces.
  record Writes (at_hand : List ℕ) (filesize rval : ℕ) (stream : List ℕ) (done : List Effect)
      (a : Api) (written all : List ℕ) : Type 0 where
    pieces : List (List ℕ)
    api : Api
    runs :
        ask_file k sock true at_hand filesize rval stream done a
        ≡ ok (done ++ map wrote pieces, api)
    joined_are : all ≡ written ++ joined pieces
    small : All (λ b. length b ≤ 25) pieces
    asks : Asks sock api

  ask_file-Writes :
      (at_hand : List ℕ) (filesize rval : ℕ) (written stream : List ℕ) (done : List Effect)
      (a : Api) (all : List ℕ)
      → rval ≡ length written
      → write_file at_hand filesize written stream ≡ some all
      → Asks sock a
      → Writes at_hand filesize rval stream done a written all
  unfolding write_file ask_file
  ask_file-Writes [] filesize rval written stream done a all r e v =
      elim (Bool-cases (ltb (length written) filesize)) [
        | inl more ↦ cc (rw more at e)
        | inr over ↦
            let end : ltb rval filesize ≡ false = rw r over in
            record {
              pieces = [];
              api = a;
              runs = rw (end, append-nil done) refl;
              joined_are = rw (append-nil written) (cc (rw over at e));
              small = tt;
              asks = v;
            }
      ]
  ask_file-Writes (n ∷ at_hand) filesize rval written stream done a all r e v =
      elim (Bool-cases (ltb (length written) filesize)) [
        | inl more ↦
            let got = take (min n 25) stream in
            let on : ltb rval filesize ≡ true = rw r more in
            let (a1, asked, v1) = request-Asks 25 a v in
            let w =
              ask_file-Writes at_hand filesize (rval + length got) (written ++ got)
                (drop (min n 25) stream) (done ++ (wrote got ∷ [])) a1 all
                (rw (length-append written got) (omega (arith, r))) (rw more at e) v1 in
            record {
              pieces = got ∷ w.pieces;
              api = w.api;
              runs =
                  rw (on, asked)
                    (w.runs ∙ ap (λ (l : List Effect). ok (l, w.api)) (append_assoc done _ _));
              joined_are = w.joined_are ∙ append_assoc written got _;
              small = (omega (arith, length-take (min n 25) stream), w.small);
              asks = w.asks;
            }
        | inr over ↦
            let end : ltb rval filesize ≡ false = rw r over in
            record {
              pieces = [];
              api = a;
              runs = rw (end, append-nil done) refl;
              joined_are = rw (append-nil written) (cc (rw over at e));
              small = tt;
              asks = v;
            }
      ]

c_string_name :
    (n : ℕ) (name zeros : List ℕ)
    → All (λ c. 1 ≤ c) name
    → length name < n
    → c_string (take n (name ++ (0 ∷ zeros))) ≡ name
unfolding c_string
c_string_name zero name zeros a h = absurd (omega arith)
c_string_name (suc n) [] zeros a h = refl
c_string_name (suc n) (c ∷ name) zeros a h =
    let not_end : (c == 0) ≡ false = ground arith in
    rw not_end (ap (λ (l : List ℕ). c ∷ l) (c_string_name n name zeros a.1 (omega arith)))

output_name_lem :
    (name : List ℕ)
    → All (λ c. 1 ≤ c) name
    → length name ≤ 13
    → output_name (take 20 (name ++ replicate 20 0)) ≡ ok (folder ++ name)
unfolding output_name
output_name_lem name a h =
    let same = c_string_name 20 name (replicate 19 0) a (omega arith) in
    rw (replicate_more, same, ge→ltb 13 (length name) h) refl

file_length_lem :
    (name file : List ℕ)
    → length file < 2 ^ 31
    → file_length (header (length file) name) ≡ length file
unfolding file_length
file_length_lem name file small =
    rw ((header_size (length file) name small).0, lt→ltb (length file) (2 ^ 31) small) refl

open_socket-Asks :
    (k : Kernel) (sock : ℕ)
    → k.socket 0 ≡ some sock
    → (a : Api) × (open_socket k unused ≡ ok (sock, a)) × Asks sock a
unfolding open_socket socket bind set_send_address
open_socket-Asks k sock s = elim (Bool-cases (k.bind sock (inet 2000 any_address))) [
  | inl granted ↦ (
    up ((sock, inet 2000 any_address) ∷ []),
    rw (s, granted) refl,
    record { dest_is = refl; sent = tt },
  )
  | inr refused ↦ (up [], rw (s, refused) refl, record { dest_is = refl; sent = tt })
]
  where
    up : List (ℕ × List ℕ) → Api
    up bound = record unused { dest_addr = inet 5050 local_host; opened = 0 + 1; bound = bound }

-- If the socket can be made, no send fails, the file can be opened under its name, which has at
-- most 13 characters and no end mark in it, the file is shorter than 2^31 bytes, every answer has
-- at least a byte and there are at least as many answers as bytes to come, ftps ends: it has made
-- the folder exactly if there was none, opened the file in it, written pieces of at most 25 bytes
-- that make just the file that ftpc sent, and closed it, with all requests sent to port 5050 of
-- 127.0.0.1.
pub main-send_file_saved :
    (k : Kernel) (disk : Disk) (sock : ℕ) (at_hand name file : List ℕ)
    → k.socket 0 ≡ some sock
    → ((n : ℕ) → k.refused n ≡ false)
    → disk.can_open (folder ++ name) ≡ true
    → All (λ c. 1 ≤ c) name
    → length name ≤ 13
    → length file < 2 ^ 31
    → All (λ n. 1 ≤ n) at_hand
    → 24 + length file ≤ length at_hand
    → (pieces : List (List ℕ)) × (a : Api) × (main k disk at_hand
          (joined (send_file (length file) name file))
        ≡ ok (
          (((if disk.has_folder then [] else made_folder ∷ []) ++ (opened (folder ++ name) ∷ []))
                ++ map wrote pieces)
              ++ (closed ∷ []),
          a,
        ))
      × (joined pieces ≡ file)
      × All (λ b. length b ≤ 25) pieces
      × All (λ m. (m.0 ≡ some sock) × (m.1 ≡ inet 5050 local_host)) a.outbox
unfolding main open_file
main-send_file_saved k disk sock at_hand name file s never can no_end short small each enough =
    let top = header (length file) name in
    let v = both_lem at_hand name file each enough in
    let head = header_size (length file) name small in
    let named : output_name (drop 4 top) ≡ ok (folder ++ name) =
      ap output_name head.1 ∙ output_name_lem name no_end short in
    let in_full = file_length_lem name file small in
    let (up, opens, asks) = open_socket-Asks k sock s in
    let (a1, reads, asks1) =
      ask_header-Asks k never sock at_hand 24 [] (joined (send_file (length file) name file)) up _
        v.header_read asks in
    let w =
      ask_file-Writes k never sock v.left (length file) 0 [] file
        ((if disk.has_folder then [] else made_folder ∷ []) ++ (opened (folder ++ name) ∷ [])) a1
        file refl v.file_read asks1 in
    (
      w.pieces,
      w.api,
      rw (opens, reads, named, can, in_full, w.runs) refl,
      sym w.joined_are,
      w.small,
      w.asks.sent,
    )
