-- ===== src/Server/Connections/Sound.antt =====
-- What holds of one connection, and that opening and closing it keep this.
use simple_x509_authenticate.Common.{
  ℕ, zero, suc, ◌^◌, ◌<◌, ◌≡◌, refl, subst, Bool, true, false, Option, Option-cases, inl, inr, none,
  some, Bytes, length, length-take_le, All, replicate, arith,
}
use simple_x509_authenticate.Common.Int.{ℤ, pos, ltb_ℤ}
use simple_x509_authenticate.Server.Kernel.{Kernel, Allocates}
use simple_x509_authenticate.Server.Connections.{
  max_script_size, max_int64, kilobyte, Connection, zero_conn, is_used, contents, with_buffer,
  open_conn,
}

-- There is room behind what was received.
abbrev pub Buffered : Option Bytes → ℕ → ℕ → Bool → Type 0
Buffered none size cap used = used ≡ false
Buffered (some mem) size cap used = (length mem ≡ cap) × (size < cap) × (cap < 2 ^ 32)

pub record Sound (conn : Connection) : Type 0 where
  pub buffered : Buffered conn.buf conn.buf_size conn.buf_cap (is_used conn)
  pub small : conn.buf_size < max_script_size
  pub empty : is_used conn ≡ false → conn.buf_size ≡ 0
  pub young : ltb_ℤ conn.open_time max_int64 ≡ true

freed-Buffered :
    (size cap : ℕ) (used : Bool) (buf : Option Bytes)
    → Buffered buf size cap used
    → Buffered buf 0 cap false
freed-Buffered size room used none h = refl
freed-Buffered size room used (some mem) (whole, lt, small) = (whole, omega arith, small)

-- What was received is smaller than max_script_size.
pub contents-length : (conn : Connection) → Sound conn → length (contents conn) < max_script_size
unfolding contents
contents-length conn sound =
    let small = sound.small in
    elim (Option-cases conn.buf) [
      | inl missing ↦ rw (contents, missing) (omega arith)
      | inr (mem, e) ↦ rw (contents, e) (omega (arith, length-take_le conn.buf_size mem))
    ]

pub freed-Sound :
    (conn : Connection)
    → Sound conn
    → Sound (record conn { fd = pos 0; buf_size = 0; open_time = pos 0 })
unfolding is_used
freed-Sound conn sound = record {
  buffered = freed-Buffered conn.buf_size conn.buf_cap (is_used conn) conn.buf sound.buffered;
  small = omega arith;
  empty = λ _. refl;
  young = refl;
}

pub freed-is_used :
    (conn : Connection)
    → is_used (record conn { fd = pos 0; buf_size = 0; open_time = pos 0 }) ≡ false
unfolding is_used
freed-is_used conn = refl

-- A connection that takes the place of one that was not in use.
with_buffer-Sound :
    (kernel : Kernel) (buf : Option Bytes) (conn : Connection)
    → Allocates kernel
    → conn.buf ≡ buf
    → Buffered buf conn.buf_size conn.buf_cap false
    → conn.buf_size < max_script_size
    → ltb_ℤ conn.open_time max_int64 ≡ true
    → is_used conn ≡ true
    → Sound (with_buffer kernel buf conn) × (is_used (with_buffer kernel buf conn) ≡ true)
unfolding with_buffer is_used
with_buffer-Sound kernel none conn allocates e buffered small young used =
    let made : length (kernel.malloc kilobyte) ≡ kilobyte = allocates.size kilobyte in
    (
      record {
        buffered = (made, omega arith, omega arith);
        small = omega arith;
        empty = λ free. cc;
        young = young;
      },
      used,
    )
with_buffer-Sound kernel (some mem) conn allocates e buffered small young used =
    (record { buffered = rw e buffered; small = small; empty = λ free. cc; young = young }, used)

pub open_conn-Sound :
    (kernel : Kernel) (conn_fd clock : ℤ) (conn : Connection)
    → Allocates kernel
    → ltb_ℤ (pos 0) conn_fd ≡ true
    → ltb_ℤ clock max_int64 ≡ true
    → Sound conn
    → is_used conn ≡ false
    → Sound (open_conn kernel conn_fd clock conn)
      × (is_used (open_conn kernel conn_fd clock conn) ≡ true)
unfolding open_conn is_used
open_conn-Sound kernel conn_fd clock conn allocates used young sound free =
    with_buffer-Sound kernel conn.buf (record conn { fd = conn_fd; open_time = clock }) allocates
      refl (freed_buffered (is_used conn) free sound.buffered) sound.small young used
  where
    freed_buffered :
        (b : Bool)
        → b ≡ false
        → Buffered conn.buf conn.buf_size conn.buf_cap b
        → Buffered conn.buf conn.buf_size conn.buf_cap false
    freed_buffered b e h = subst (Buffered conn.buf conn.buf_size conn.buf_cap) e h

with_buffer-members :
    (kernel : Kernel) (buf : Option Bytes) (conn : Connection)
    → conn.buf_size ≡ 0
    → ((with_buffer kernel buf conn).fd ≡ conn.fd)
      × ((with_buffer kernel buf conn).buf_size ≡ 0)
      × ((with_buffer kernel buf conn).open_time ≡ conn.open_time)
unfolding with_buffer
with_buffer-members kernel none conn nothing = (refl, refl, refl)
with_buffer-members kernel (some mem) conn nothing = (refl, nothing, refl)

pub open_conn-members :
    (kernel : Kernel) (conn_fd clock : ℤ) (conn : Connection)
    → conn.buf_size ≡ 0
    → ((open_conn kernel conn_fd clock conn).fd ≡ conn_fd)
      × ((open_conn kernel conn_fd clock conn).buf_size ≡ 0)
      × ((open_conn kernel conn_fd clock conn).open_time ≡ clock)
unfolding open_conn
open_conn-members kernel conn_fd clock conn nothing =
    with_buffer-members kernel conn.buf (record conn { fd = conn_fd; open_time = clock }) nothing

pub zero_conn-Sound : Sound zero_conn
unfolding is_used
zero_conn-Sound = record { buffered = refl; small = omega arith; empty = λ _. refl; young = refl }

pub replicate-Sound : (n : ℕ) → All Sound (replicate n zero_conn)
replicate-Sound zero = tt
replicate-Sound (suc n) = (zero_conn-Sound, replicate-Sound n)
