-- ===== src/Server/Receive/Store.antt =====
-- One round of the loop that receives: what was received grows by the bytes of recv, and there is
-- room for more behind it.
use simple_x509_authenticate.Common.{
  ℕ, ◌+◌, ◌*◌, ◌%◌, ◌^◌, ◌≤◌, ◌<◌, ◌≡◌, refl, subst, ◌∙◌, inl, inr, true, false, ◌++◌, some, Bytes,
  length, length-append, length-take, take, drop, take-append, take-append_le, take-take,
  length-drop, add64, leb, Bool-cases, Option-cases, arith,
}
use simple_x509_authenticate.Common.Int.{pos}
use simple_x509_authenticate.Common.Result.{Yields, Yields-bind}
use simple_x509_authenticate.Common.Buffer.{Yields-some}
use simple_x509_authenticate.Server.Kernel.{Kernel, Allocates}
use simple_x509_authenticate.Server.Connections.{max_script_size, Connection, is_used, contents}
use simple_x509_authenticate.Server.Connections.Sound.{Buffered, Sound}
use simple_x509_authenticate.Server.Receive.{store, append_received, grow, keep_room}

-- The memory behind a store: as long as before, with the bytes behind what was received.
pub record Stored (mem : Bytes) (start : ℕ) (bytes written : Bytes) : Type 0 where
  pub whole : length written ≡ length mem
  pub front : take (start + length bytes) written ≡ take start mem ++ bytes

store-Stored :
    (mem : Bytes) (start : ℕ) (bytes : Bytes)
    → start + length bytes ≤ length mem
    → Yields (Stored mem start bytes) (store mem start bytes)
unfolding store
store-Stored mem start bytes fits =
    let inside : leb (start + length bytes) (length mem) ≡ true = ground arith in
    let n = start + length bytes in
    let head : length (take start mem) ≡ start = length-take start mem (omega arith) in
    let tail = length-drop n mem in
    let joined = length-append (take start mem ++ bytes) (drop n mem) in
    let two = length-append (take start mem) bytes in
    let size : length (take start mem ++ bytes) ≡ n = omega arith in
    rw (inside, store)
      (record {
        whole = omega arith;
        front =
            subst (λ k. take k ((take start mem ++ bytes) ++ drop n mem) ≡ take start mem ++ bytes)
              size (take-append (take start mem ++ bytes) (drop n mem));
      })

-- The members of a connection behind a round.
pub record Grown (conn : Connection) (bytes : Bytes) (more : Connection) : Type 0 where
  pub fd : more.fd ≡ conn.fd
  pub open_time : more.open_time ≡ conn.open_time
  pub size : more.buf_size ≡ conn.buf_size + length bytes
  pub received : contents more ≡ contents conn ++ bytes

-- The buffer of a connection in use.
pub record Allocated (conn : Connection) : Type 0 where
  pub mem : Bytes
  pub buf : conn.buf ≡ some mem
  pub whole : length mem ≡ conn.buf_cap
  pub capacity : conn.buf_cap < 2 ^ 32

pub freed-Allocated :
    (conn : Connection)
    → Allocated conn
    → 0 < conn.buf_cap
    → Sound (record conn { fd = pos 0; buf_size = 0; open_time = pos 0 })
unfolding is_used
freed-Allocated conn a room = record {
  buffered = rw a.buf (a.whole, room, a.capacity);
  small = omega arith;
  empty = λ _. refl;
  young = refl;
}

pub used-Allocated :
    (conn : Connection)
    → Sound conn
    → is_used conn ≡ true
    → Allocated conn × (conn.buf_size < conn.buf_cap)
used-Allocated conn sound used = elim (Option-cases conn.buf) [
  | inl missing ↦
      let none_used : is_used conn ≡ false =
        subst (λ b. Buffered b conn.buf_size conn.buf_cap (is_used conn)) missing sound.buffered in
      absurd (ground arith)
  | inr (mem, e) ↦
      let (whole, room, small) =
        subst (λ b. Buffered b conn.buf_size conn.buf_cap (is_used conn)) e sound.buffered in
      (record { mem = mem; buf = e; whole = whole; capacity = small }, room)
]

-- A connection in use holds as many bytes as it counts.
pub contents-length_used :
    (conn : Connection) → Sound conn → is_used conn ≡ true → length (contents conn) ≡ conn.buf_size
unfolding contents
contents-length_used conn sound used =
    let (a, room) = used-Allocated conn sound used in
    let whole = a.whole in rw (contents, a.buf) (length-take conn.buf_size a.mem (omega arith))

pub append_received-Grown :
    (bytes : Bytes) (conn : Connection)
    → Sound conn
    → is_used conn ≡ true
    → conn.buf_size + length bytes ≤ conn.buf_cap
    → Yields
        (λ more. Grown conn bytes more × Allocated more × (more.buf_cap ≡ conn.buf_cap))
        (append_received bytes conn)
unfolding append_received contents
append_received-Grown bytes conn sound used fits =
    let (a, room) = used-Allocated conn sound used in
    let whole = a.whole in
    let capacity = a.capacity in
    Yields-some _ _ _ a.buf (
      Yields-bind (Stored a.mem conn.buf_size bytes) _ (store a.mem conn.buf_size bytes) _
        (store-Stored a.mem conn.buf_size bytes (omega arith))
        λ written _ stored.
          let size : add64 conn.buf_size (length bytes) ≡ conn.buf_size + length bytes =
            omega arith in
          (
            record {
              fd = refl;
              open_time = refl;
              size = size;
              received = rw (size, a.buf) stored.front;
            },
            record { mem = written; buf = refl; whole = stored.whole ∙ whole; capacity = capacity },
            refl,
          ))

-- What is known behind the round: there is room again.
pub record Roomy (conn : Connection) (bytes : Bytes) (roomy : Connection) : Type 0 where
  pub grown : Grown conn bytes roomy
  pub sound : Sound roomy
  pub used : is_used roomy ≡ true

Roomy_lem :
    (conn : Connection) (bytes : Bytes) (roomy : Connection)
    → Sound conn
    → is_used conn ≡ true
    → Grown conn bytes roomy
    → Allocated roomy
    → roomy.buf_size < roomy.buf_cap
    → roomy.buf_size < max_script_size
    → Roomy conn bytes roomy
unfolding is_used
Roomy_lem conn bytes roomy sound used grown a room small =
    let in_use : is_used roomy ≡ true = rw grown.fd used in
    record {
      grown = grown;
      sound = record {
        buffered = rw a.buf (a.whole, room, a.capacity);
        small = small;
        empty = λ free. absurd (ground arith);
        young = rw grown.open_time sound.young;
      };
      used = in_use;
    }

pub keep_room-Roomy :
    (kernel : Kernel) (conn more : Connection) (bytes : Bytes)
    → Allocates kernel
    → Sound conn
    → is_used conn ≡ true
    → Grown conn bytes more
    → Allocated more
    → more.buf_size ≤ more.buf_cap
    → 0 < more.buf_size
    → more.buf_size < max_script_size
    → Yields (Roomy conn bytes) (keep_room kernel more)
unfolding keep_room grow contents
keep_room-Roomy kernel conn more bytes allocates sound used grown a within some_bytes small =
    let capacity = a.capacity in
    elim (Bool-cases (leb more.buf_cap more.buf_size)) [
      | inr room ↦
          rw (room, keep_room) (Roomy_lem conn bytes more sound used grown a (ground arith) small)
      | inl full ↦
          let cap_now = (more.buf_cap * 2) % 2 ^ 64 in
          let twice : cap_now ≡ more.buf_cap * 2 = ground arith in
          let fresh = drop (length a.mem) (kernel.malloc cap_now) in
          let whole = a.whole in
          let made = allocates.size cap_now in
          let tail = length-drop (length a.mem) (kernel.malloc cap_now) in
          let joined = length-append a.mem fresh in
          let kept : take more.buf_size (take cap_now (a.mem ++ fresh)) ≡ take more.buf_size a.mem =
            take-take more.buf_size cap_now (a.mem ++ fresh) (ground arith)
            ∙ take-append_le more.buf_size a.mem fresh (omega arith) in
          let roomy = record more {
            buf_cap = cap_now;
            buf = some (take cap_now (a.mem ++ fresh));
          } in
          let known : take more.buf_size a.mem ≡ contents conn ++ bytes =
            rw a.buf at grown.received in
          rw (full, keep_room)
            (Yields-some _ _ _ a.buf (
              Roomy_lem conn bytes roomy sound used
                (record {
                  fd = grown.fd;
                  open_time = grown.open_time;
                  size = grown.size;
                  received = kept ∙ known;
                })
                (record {
                  mem = take cap_now (a.mem ++ fresh);
                  buf = refl;
                  whole = length-take cap_now (a.mem ++ fresh) (ground arith);
                  capacity = ground arith;
                })
                (ground arith) small))
    ]
