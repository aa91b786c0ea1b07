-- ===== src/GenSig/Loops.antt =====
-- The loops of gen_sig: all of the file is read, and all of the bytes are written.
use simple_x509_authenticate.Common.{
  ℕ, zero, suc, ◌+◌, ◌-◌, ◌^◌, ◌≤◌, ◌<◌, ◌≡◌, refl, sym, ap, subst, ◌∙◌, inl, inr, true, false, [],
  ◌∷◌, ◌++◌, append_assoc, append-nil, Option-cases, none, Bytes, length, length-append,
  length-drop, take, drop, drop-drop, take-drop_next, drop_all, add64, sub64, ltb, leb, Bool-cases,
  arith,
}
use simple_x509_authenticate.Common.Result.{check, Yields, Yields-mono}
use simple_x509_authenticate.Output.{Write, Part, Writes, Succeeds}
use simple_x509_authenticate.GenSig.{next_cap, read_loop, to_size, appended, write_loop}

-- fread answers the next bytes of the file, at least one where there is one and room for it.
pub record Reads (fread : ℕ → ℕ → ℕ → Bytes) (file : Bytes) : Type 0 where
  pub size : ℕ → ℕ → ℕ → ℕ
  pub some_byte : (n before room : ℕ) → 0 < room → 0 < size n before room
  pub within : (n before room : ℕ) → size n before room ≤ room
  pub next :
      (n before room : ℕ) → fread n before room ≡ take (size n before room) (drop before file)

length-take_min : (n : ℕ) (xs : Bytes) → (length (take n xs) ≤ n) × (length (take n xs) ≤ length xs)
length-take_min zero xs = (omega arith, omega arith)
length-take_min (suc n) [] = (omega arith, omega arith)
length-take_min (suc n) (x ∷ xs) = let (a, b) = length-take_min n xs in (omega arith, omega arith)

take_pos : (n : ℕ) (xs : Bytes) → 0 < n → length (take n xs) ≡ 0 → xs ≡ []
take_pos zero xs h e = absurd (omega arith)
take_pos (suc n) [] h e = refl
take_pos (suc n) (x ∷ xs) h e = absurd (omega arith)

take-whole : (n : ℕ) (xs : Bytes) → take n xs ++ drop (length (take n xs)) xs ≡ xs
take-whole zero xs = refl
take-whole (suc n) [] = refl
take-whole (suc n) (x ∷ xs) = ap (◌∷◌ x) (take-whole n xs)

module _ (write : Write) (writes : Writes write) (succeeds : Succeeds write) (bytes : Bytes)
    (small : length bytes < 2 ^ 63) where
  write_loop-Yields :
      (fuel n start : ℕ) (output : Bytes)
      → length bytes < fuel + start
      → start ≤ length bytes
      → Yields
          (λ out. out ≡ output ++ drop start bytes)
          (write_loop fuel write n start bytes output)
  unfolding write_loop to_size appended
  write_loop-Yields zero n start output lt inside = absurd (omega arith)
  write_loop-Yields (suc fuel) n start output lt inside =
      elim (Bool-cases (ltb start (length bytes))) [
        | inr over ↦
            let done : drop start bytes ≡ [] = drop_all start bytes (ground arith) in
            rw (over, write_loop, done) (sym (append-nil output))
        | inl more ↦
            let size = sub64 (length bytes) start in
            let left : size ≡ length bytes - start = ground arith in
            elim (Option-cases (write n size)) [
              | inl broken ↦ absurd (succeeds.written n size broken)
              | inr (k, e) ↦
                  let (some_byte, fits) =
                    subst (Part size) e (writes.some_part n size (ground arith)) in
                  let next : add64 start k ≡ start + k = omega arith in
                  let ret : to_size (write n size) ≡ k = ap to_size e in
                  let put : appended (write n size) (drop start bytes) ≡ take k (drop start bytes) =
                    ap (λ answer. appended answer (drop start bytes)) e in
                  let positive : ltb 0 (to_size (write n size)) ≡ true = ground arith in
                  rw (more, write_loop, positive, ret, put, next)
                    (Yields-mono
                      (λ out. out ≡ (output ++ take k (drop start bytes)) ++ drop (start + k) bytes)
                      (λ out. out ≡ output ++ drop start bytes)
                      (write_loop fuel write (suc n) (start + k) bytes
                        (output ++ take k (drop start bytes)))
                      (λ out h.
                        h
                        ∙ append_assoc output (take k (drop start bytes)) (drop (start + k) bytes)
                        ∙ ap (λ xs. output ++ xs) (take-drop_next start k bytes))
                      (write_loop-Yields fuel (suc n) (start + k)
                        (output ++ take k (drop start bytes)) (omega arith) (omega arith)))
            ]
      ]

  pub write_loop-whole :
      (fuel : ℕ) (output : Bytes)
      → length bytes < fuel
      → Yields (λ out. out ≡ output ++ bytes) (write_loop fuel write 0 0 bytes output)
  write_loop-whole fuel output lt = write_loop-Yields fuel 0 0 output (omega arith) (omega arith)

next_cap-room :
    (size room : ℕ)
    → size ≤ room
    → size < 2 ^ 62
    → room < 2 ^ 63
    → 0 < size
    → (size < next_cap size room) × (next_cap size room < 2 ^ 63)
unfolding next_cap
next_cap-room size room within small below some_byte = elim (Bool-cases (leb room size)) [
  | inl full ↦ rw (full, next_cap) (ground arith, ground arith)
  | inr free ↦ rw (free, next_cap) (ground arith, below)
]

module _ (fread : ℕ → ℕ → ℕ → Bytes) (file : Bytes) (reads : Reads fread file)
    (small : length file < 2 ^ 62) where
  -- The next chunk of the file, behind `data_size` bytes of it.
  chunk_next :
      (n data_size room : ℕ)
      → fread n data_size room ++ drop (length (fread n data_size room)) (drop data_size file)
        ≡ drop data_size file
  chunk_next n data_size room =
      subst (λ xs. xs ++ drop (length xs) (drop data_size file) ≡ drop data_size file)
        (sym (reads.next n data_size room))
        (take-whole (reads.size n data_size room) (drop data_size file))

  pub read_loop-Yields :
      (fuel n data_cap : ℕ) (read_before : Bytes)
      → length file < fuel + length read_before
      → read_before ++ drop (length read_before) file ≡ file
      → length read_before < data_cap
      → data_cap < 2 ^ 63
      → Yields (λ script. script ≡ file) (read_loop fuel fread n read_before data_cap)
  unfolding read_loop check
  read_loop-Yields zero n data_cap read_before lt front room cap_small =
      let joined = length-append read_before (drop (length read_before) file) in
      let whole : length (read_before ++ drop (length read_before) file) ≡ length file =
        ap length front in
      absurd (omega arith)
  read_loop-Yields (suc fuel) n data_cap read_before lt front room cap_small =
      let data_size = length read_before in
      let space = sub64 data_cap data_size in
      let left : space ≡ data_cap - data_size = omega arith in
      let chunk = fread n data_size space in
      let k = reads.size n data_size space in
      let some_byte = reads.some_byte n data_size space (omega arith) in
      let within = reads.within n data_size space in
      let e = reads.next n data_size space in
      let (short, shorter) = length-take_min k (drop data_size file) in
      let size : length chunk ≡ length (take k (drop data_size file)) = ap length e in
      let rest = length-drop data_size file in
      let joined = length-append read_before (drop data_size file) in
      let whole : length (read_before ++ drop data_size file) ≡ length file = ap length front in
      elim (Bool-cases (ltb 0 (length chunk))) [
        | inr over ↦
            let ended : drop data_size file ≡ [] =
              take_pos k (drop data_size file) some_byte (ground arith) in
            rw (over, read_loop)
              (sym (append-nil read_before) ∙ ap (λ xs. read_before ++ xs) (sym ended) ∙ front)
        | inl more ↦
            let longer = length-append read_before chunk in
            let fits : leb (data_size + length chunk) data_cap ≡ true = ground arith in
            let (space_left, below) =
              next_cap-room (data_size + length chunk) data_cap (omega arith) (omega arith)
                cap_small (ground arith) in
            let behind : drop (length (read_before ++ chunk)) file
                ≡ drop (length chunk) (drop data_size file) =
              ap (λ i. drop i file) longer ∙ sym (drop-drop data_size (length chunk) file) in
            let front_next : (read_before ++ chunk) ++ drop (length (read_before ++ chunk)) file
                ≡ file =
              append_assoc read_before chunk (drop (length (read_before ++ chunk)) file)
              ∙ ap (λ xs. read_before ++ xs)
                  (ap (λ xs. chunk ++ xs) behind ∙ chunk_next n data_size space)
              ∙ front in
            rw (more, read_loop, fits, check)
              (read_loop-Yields fuel (suc n) (next_cap (data_size + length chunk) data_cap)
                (read_before ++ chunk) (ground arith) front_next (omega arith) below)
      ]

-- A write that fails in front of the first byte: its answer wraps the index around to the largest
-- number, which ends the loop.
pub write_loop-lost :
    (fuel : ℕ) (write : Write) (bytes output : Bytes)
    → 0 < length bytes
    → length bytes < 2 ^ 62
    → write 0 (length bytes) ≡ none
    → 1 < fuel
    → Yields (λ out. out ≡ output) (write_loop fuel write 0 0 bytes output)
unfolding write_loop to_size appended
write_loop-lost zero write bytes output some_byte small failed rounds = absurd (omega arith)
write_loop-lost (suc zero) write bytes output some_byte small failed rounds = absurd (omega arith)
write_loop-lost (suc (suc fuel)) write bytes output some_byte small failed rounds =
    let more : ltb 0 (length bytes) ≡ true = ground arith in
    let size : sub64 (length bytes) 0 ≡ length bytes = omega arith in
    let answer = write 0 (sub64 (length bytes) 0) in
    let e : answer ≡ none = ap (write 0) size ∙ failed in
    let ret : to_size answer ≡ 2 ^ 64 - 1 = ap to_size e in
    let put : appended answer (drop 0 bytes) ≡ [] = ap (λ a. appended a (drop 0 bytes)) e in
    let positive : ltb 0 (to_size answer) ≡ true = ground arith in
    let over : ltb (add64 0 (to_size answer)) (length bytes) ≡ false = ground arith in
    rw (more, write_loop, positive, over, put) (append-nil output)
