-- ===== src/Tcpds/Accept.antt =====
-- What tcpds.c makes of the packets that cbuffer.c sends.
use project.Base.{
  ℕ, ◌+◌, ◌^◌, ◌≤◌, ◌<◌, ◌≡◌, ◌≢◌, refl, sym, ap, ◌∙◌, subst, Bool, false, List, [], ◌∷◌, ◌++◌,
  append_assoc, arith, length, length-append, take, drop, drop_front, take-length, ◌==◌, ==_iff,
  ==_refl, if◌then◌else◌, Bool-cases, inl, inr,
}
use project.Words.{le32, read_le32, read_behind, read_le32-le32}
use project.Crc32.{crc32}
use project.Crc32.Detect.{AreBytes, crc32-lt, crc32_ignores, crc32_detects_burst}
use project.Sender.{Outcome, ok, exited, fault, hangs, ◌>>=◌, packet}
use project.Tcpds.{
  Stale, ServerBuffer, Daemon, network, send, store_packet, check_packet, check_packets,
  remote_is_set,
}

-- A datagram with a header of 24 bytes, in the array.
abbrev pub framed : List ℕ → ℕ → ℕ → List ℕ → List ℕ
framed remote c num bytes = remote ++ (le32 c ++ (le32 num ++ bytes))

module _ (sb : ServerBuffer) (refused : ℕ → Bool) where
  open sb use {Store, add_data}

  bind_ok : (o : Outcome (Daemon Store)) → (o >>= λ d. ok d) ≡ o
  bind_ok (ok d) = refl
  bind_ok exited = refl
  bind_ok fault = refl
  bind_ok hangs = refl

  -- A whole packet is stored where its checksum is that of its data.
  framed_lem :
      (stale : Stale) (remote bytes : List ℕ) (c num : ℕ) (d : Daemon Store)
      → length remote ≡ 16
      → length bytes ≡ 1000
      → c < 2 ^ 32
      → num < 2 ^ 32
      → remote_is_set sb refused stale (framed remote c num bytes) d ≡ (
          if crc32 0x04c11db7 bytes 1000 == c
          then store_packet sb refused num 1000 (bytes ++ stale.behind) d
          else ok d)
  unfolding remote_is_set check_packets check_packet
  framed_lem stale remote bytes c num d r b hc hn = rw (len, one) (bind_ok _ ∙ bind_ok _)
    where
      rest : List ℕ
      rest = le32 c ++ (le32 num ++ (bytes ++ stale.behind))

      buffer : List ℕ
      buffer = framed remote c num bytes ++ stale.behind

      in_front : buffer ≡ remote ++ rest
      in_front = append_assoc remote (le32 c ++ (le32 num ++ bytes)) stale.behind

      len : length (framed remote c num bytes) ≡ 1024
      len = omega (arith, length-append remote (le32 c ++ (le32 num ++ bytes)))

      sum : read_le32 buffer 16 ≡ c
      sum =
          ap (λ (l : List ℕ). read_le32 l 16) in_front
          ∙ read_behind remote rest 0 16 (omega arith)
          ∙ read_le32-le32 c _ hc

      number : read_le32 buffer 20 ≡ num
      number =
          ap (λ (l : List ℕ). read_le32 l 20) in_front
          ∙ read_behind remote rest 4 20 (omega arith)
          ∙ read_behind (le32 c) (le32 num ++ (bytes ++ stale.behind)) 0 4 (omega arith)
          ∙ read_le32-le32 num _ hn

      load : drop 24 buffer ≡ bytes ++ stale.behind
      load =
          ap (drop 24)
            (in_front ∙ sym (append_assoc remote (le32 c ++ le32 num) (bytes ++ stale.behind)))
          ∙ drop_front 24 (remote ++ (le32 c ++ le32 num)) (bytes ++ stale.behind)
              (omega (arith, length-append remote (le32 c ++ le32 num)))

      checked : crc32 0x04c11db7 (bytes ++ stale.behind) 1000 ≡ crc32 0x04c11db7 bytes 1000
      checked =
          subst (λ (n : ℕ). crc32 0x04c11db7 (bytes ++ stale.behind) n ≡ crc32 0x04c11db7 bytes n) b
            (crc32_ignores 0x04c11db7 bytes stale.behind)

      one : check_packet sb refused buffer 1024 0 d ≡ (
          if crc32 0x04c11db7 bytes 1000 == c
          then store_packet sb refused num 1000 (bytes ++ stale.behind) d
          else ok d)
      one = rw (sum, number, load, checked)

  -- If no send fails, a packet of 1000 bytes of data as `sendWindow` sends it, with its address
  -- of 16 bytes and a 32-bit number, is handed to `addData` with its number and data, and is
  -- acknowledged by its number exactly if `addData` does not return 0.
  pub remote_is_set-packet :
      (stale : Stale) (remote bytes : List ℕ) (bsn : ℕ) (d : Daemon Store)
      → ((k : ℕ) → refused k ≡ false)
      → length remote ≡ 16
      → length bytes ≡ 1000
      → bsn < 2 ^ 32
      → remote_is_set sb refused stale (packet remote bsn bytes 1000) d ≡ (
          add_data bsn 1000 (bytes ++ stale.behind) d.store >>= λ o. ok (
            if o.0 == 0 then record d { store = o.1 } else record d {
              store = o.1;
              sends = d.sends + 1;
              outbox = d.outbox ++ ((network, d.remote ++ le32 bsn) ∷ []);
            }))
  unfolding packet store_packet send
  remote_is_set-packet stale remote bytes bsn d never r b h =
      ap (λ (l : List ℕ). remote_is_set sb refused stale (framed remote sum bsn l) d) whole
      ∙ framed_lem stale remote bytes sum bsn d r b (crc32-lt 0x04c11db7 bytes 1000 (omega arith)) h
      ∙ rw (==_refl sum) stored
    where
      sum : ℕ
      sum = crc32 0x04c11db7 bytes 1000

      whole : take 1000 bytes ≡ bytes
      whole = subst (λ (n : ℕ). take n bytes ≡ bytes) b (take-length bytes)

      after : ℕ × Store → Daemon Store
      after o = if o.0 == 0 then record d { store = o.1 } else record d {
        store = o.1;
        sends = d.sends + 1;
        outbox = d.outbox ++ ((network, d.remote ++ le32 bsn) ∷ []);
      }

      by_result :
          (out : Outcome (ℕ × Store))
          → (out >>= λ o.
              let d' = record d { store = o.1 } in
              if o.0 == 0 then ok d' else send sb refused network (d.remote ++ le32 bsn) d')
            ≡ (out >>= λ o. ok (after o))
      by_result (ok o) = elim (Bool-cases (o.0 == 0)) [
        | inl kept ↦ rw kept refl
        | inr done ↦ rw (done, never d.sends) refl
      ]
      by_result exited = refl
      by_result fault = refl
      by_result hangs = refl

      stored :
          store_packet sb refused bsn 1000 (bytes ++ stale.behind) d
          ≡ (add_data bsn 1000 (bytes ++ stale.behind) d.store >>= λ o. ok (after o))
      stored = unfold store_packet in by_result (add_data bsn 1000 (bytes ++ stale.behind) d.store)

  -- A packet of 1000 bytes of data that is damaged within at most four bytes of its data, and
  -- nowhere else, is dropped: nothing is stored, and no acknowledgement is sent.
  pub remote_is_set_burst :
      (stale : Stale) (remote pre mid mid' post : List ℕ) (bsn : ℕ) (d : Daemon Store)
      → length remote ≡ 16
      → length (pre ++ (mid ++ post)) ≡ 1000
      → bsn < 2 ^ 32
      → AreBytes mid
      → AreBytes mid'
      → length mid ≡ length mid'
      → length mid ≤ 4
      → mid ≢ mid'
      → remote_is_set sb refused stale
          (framed remote (crc32 0x04c11db7 (pre ++ (mid ++ post)) 1000) bsn (pre ++ (mid' ++ post)))
          d
        ≡ ok d
  remote_is_set_burst stale remote pre mid mid' post bsn d r b h v v' e room ne =
      framed_lem stale remote bad sum bsn d r b' (crc32-lt 0x04c11db7 good 1000 (omega arith)) h
      ∙ rw differ
    where
      good : List ℕ
      good = pre ++ (mid ++ post)

      bad : List ℕ
      bad = pre ++ (mid' ++ post)

      sum : ℕ
      sum = crc32 0x04c11db7 good 1000

      b' : length bad ≡ 1000
      b' = omega (
        arith,
        b,
        length-append pre (mid ++ post),
        length-append pre (mid' ++ post),
        length-append mid post,
        length-append mid' post,
      )

      differ : (crc32 0x04c11db7 bad 1000 == sum) ≡ false
      differ = elim (Bool-cases (crc32 0x04c11db7 bad 1000 == sum)) [
        | inl same ↦ absurd (
            crc32_detects_burst 0x04c11db7 pre mid mid' post (omega arith) v v' e room ne
              (rw (b, b') (sym ((==_iff _ _).0 same))))
        | inr other ↦ other
      ]
