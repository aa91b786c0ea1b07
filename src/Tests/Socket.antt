-- ===== src/Tests/Socket.antt =====
-- A socket that holds some bytes, and hands them out in pieces of at most `piece` + 1 bytes.
use simple_x509_authenticate.Common.{
  ℕ, zero, suc, ◌+◌, ◌≤◌, ◌<◌, ◌≡◌, refl, sym, ap, subst, ◌∙◌, inl, inr, min, true, false, List, [],
  ◌∷◌, ◌++◌, append_assoc, append-nil, Bytes, length, length-append, drop-drop, length-take_le,
  drop_all, take, drop, ltb, Bool-cases, arith,
}
use simple_x509_authenticate.Server.Kernel.{Kernel, Received, failed, received, Within}
use simple_x509_authenticate.Server.Receive.Heard.{Heard, nothing, heard, Silent, Broken}
use simple_x509_authenticate.Server.Events.Arrival.{Delivers}

unfoldable pub socket : Kernel → Bytes → ℕ → ℕ → ℕ → ℕ → Received
socket kernel sent piece n before room = elim (ltb before (length sent)) [
  | true ↦ received (take (min room (suc piece)) (drop before sent))
  | false ↦ failed kernel.eagain
]

module _ {A : Type 0} where
  take_whole : (n : ℕ) (xs : List A) → take n xs ++ drop (length (take n xs)) xs ≡ xs
  take_whole zero xs = refl
  take_whole (suc n) [] = refl
  take_whole (suc n) (x ∷ xs) = ap (◌∷◌ x) (take_whole n xs)

  take_some : (n k : ℕ) (xs : List A) → 0 < n → k < length xs → 0 < length (take n (drop k xs))
  take_some zero k xs h lt = absurd (omega arith)
  take_some (suc n) k [] h lt = absurd (omega arith)
  take_some (suc n) zero (x ∷ xs) h lt = omega arith
  take_some (suc n) (suc k) (x ∷ xs) h lt = take_some (suc n) k xs h (omega arith)

module _ (kernel : Kernel) (sent : Bytes) (piece : ℕ)
    (same : kernel.eagain ≡ kernel.ewouldblock) where
  socket_more :
      (n before room : ℕ)
      → ltb before (length sent) ≡ true
      → socket kernel sent piece n before room
        ≡ received (take (min room (suc piece)) (drop before sent))
  unfolding socket
  socket_more n before room more = rw (socket, more) refl

  socket_over :
      (n before room : ℕ)
      → ltb before (length sent) ≡ false
      → socket kernel sent piece n before room ≡ failed kernel.eagain
  unfolding socket
  socket_over n before room over = rw (socket, over) refl

  socket-received :
      (n start room : ℕ) (chunk : Bytes)
      → socket kernel sent piece n start room ≡ received chunk
      → chunk ≡ take (min room (suc piece)) (drop start sent)
  socket-received n start room chunk e = elim (Bool-cases (ltb start (length sent))) [
    | inl more ↦ received-injective (sym (socket_more n start room more) ∙ e)
    | inr over ↦ absurd (not_failed (sym (socket_over n start room over) ∙ e))
  ]
    where
      received-injective : {xs ys : Bytes} → received xs ≡ received ys → ys ≡ xs
      received-injective h = cc

      not_failed : {errno : ℕ} {ys : Bytes} → failed errno ≡ received ys → ⊥
      not_failed h = cc

  socket-Heard :
      {n start m total : ℕ} {bytes : Bytes}
      → Heard (socket kernel sent piece) n start bytes m total
      → bytes ++ drop total sent ≡ drop start sent
  socket-Heard nothing = refl
  socket-Heard (heard {n} {m} {start} {total} {room} {chunk} {rest} e space later) =
      let d = drop start sent in
      let this = socket-received n start room chunk e in
      let after : drop (start + length chunk) sent ≡ drop (length chunk) d =
        sym (drop-drop start (length chunk) sent) in
      append_assoc chunk rest (drop total sent)
      ∙ ap (λ xs. chunk ++ xs) (socket-Heard later ∙ after)
      ∙ subst (λ xs. xs ++ drop (length xs) d ≡ d) (sym this) (take_whole (min room (suc piece)) d)

  pub socket-Within : (n before room : ℕ) → Within room (socket kernel sent piece n before room)
  unfolding socket
  socket-Within n before room = elim (Bool-cases (ltb before (length sent))) [
    | inl more ↦
        rw (more, socket) (omega (arith, length-take_le (min room (suc piece)) (drop before sent)))
    | inr over ↦ rw (over, socket) tt
  ]

  never : (m total room : ℕ) → Broken kernel (socket kernel sent piece m total room) → ⊥
  unfolding Broken
  never m total room broken = elim (Bool-cases (ltb total (length sent))) [
    | inl more ↦ subst (Broken kernel) (socket_more m total room more) broken
    | inr over ↦ elim (subst (Broken kernel) (socket_over m total room over) broken) [
      | inl other ↦ other refl
      | inr other ↦ other same
    ]
  ]

  spent :
      (m total room : ℕ)
      → 0 < room
      → Silent kernel (socket kernel sent piece m total room)
      → length sent ≤ total
  unfolding Silent
  spent m total room space silent = elim (Bool-cases (ltb total (length sent))) [
    | inl more ↦
        let some_bytes = take_some (min room (suc piece)) total sent (omega arith) (ground arith) in
        let none : length (take (min room (suc piece)) (drop total sent)) ≡ 0 =
          subst (Silent kernel) (socket_more m total room more) silent in
        absurd (omega arith)
    | inr over ↦ ground arith
  ]

  pub socket-Delivers : Delivers kernel (socket kernel sent piece) sent
  socket-Delivers = record {
    inside = λ bytes m total h.
        let whole = socket-Heard h in
        let joined = length-append bytes (drop total sent) in
        let size : length (bytes ++ drop total sent) ≡ length sent = ap length whole in omega arith;
    sound = λ bytes m total room h space broken. never m total room broken;
    complete = λ bytes m total room h space silent.
        let over : length sent ≤ total = spent m total room space silent in
        let whole = socket-Heard h in
        sym (append-nil bytes) ∙ ap (λ xs. bytes ++ xs) (sym (drop_all total sent over)) ∙ whole;
  }
