-- ===== src/Server/Receive/Heard.antt =====
-- What recv may answer to the loop that receives, and what is then known of the connection.
use simple_x509_authenticate.Common.{
  ℕ, suc, ◌+◌, ◌≤◌, ◌<◌, ◌≡◌, ◌≢◌, refl, ◌⊎◌, inl, inr, true, false, [], ◌∷◌, ◌++◌, some, Bytes,
  length, get_elem?, set,
}
use simple_x509_authenticate.Crypto.Ssl.{OpenSsl}
use simple_x509_authenticate.Crypto.{PubKey}
use simple_x509_authenticate.Server.Kernel.{Kernel, Received, failed, received}
use simple_x509_authenticate.Server.Connections.{
  max_script_size, Connection, close_fd, Resources, is_used, contents,
}
use simple_x509_authenticate.Server.Connections.Invariant.{Valid}

-- The bytes that the calls of recv answered, from the call `n` behind `start` bytes on, up to the
-- call `m` behind `total` bytes.
pub data Heard (recv : ℕ → ℕ → ℕ → Received) : ℕ → ℕ → Bytes → ℕ → ℕ → Type 0 where
  nothing : {n start : ℕ} → Heard recv n start [] n start
  heard :
      {n m start total room : ℕ} {chunk rest : Bytes}
      → recv n start room ≡ received chunk
      → 0 < room
      → Heard recv (suc n) (start + length chunk) rest m total
      → Heard recv n start (chunk ++ rest) m total

-- There is nothing more for now.
unfoldable pub Silent : Kernel → Received → Type 0
Silent kernel (failed errno) = (errno ≡ kernel.eagain) × (errno ≡ kernel.ewouldblock)
Silent kernel (received bytes) = length bytes ≡ 0

-- The connection cannot be read.
unfoldable pub Broken : Kernel → Received → Type 0
Broken kernel (failed errno) = (errno ≢ kernel.eagain) ⊎ (errno ≢ kernel.ewouldblock)
Broken kernel (received bytes) = ⊥

pub Received-cases :
    (answer : Received)
    → ((errno : ℕ) × (answer ≡ failed errno)) ⊎ ((bytes : Bytes) × (answer ≡ received bytes))
Received-cases (failed errno) = inl (errno, refl)
Received-cases (received bytes) = inr (bytes, refl)

module _ (ssl : OpenSsl) (P : PubKey ssl → Type 0) (kernel : Kernel) (i : ℕ) where
  -- The connection still is in use, and `bytes` came behind what it held.
  pub record Waiting (before after : Resources ssl) (conn : Connection) (bytes : Bytes)
      : Type 0 where
    pub now : Connection
    pub at : get_elem? after.conns i ≡ some now
    pub used : is_used now ≡ true
    pub fd : now.fd ≡ conn.fd
    pub since : now.open_time ≡ conn.open_time
    pub table : after.conns ≡ set before.conns i now
    pub received : contents now ≡ contents conn ++ bytes
    pub kept : after.keys ≡ before.keys
    pub acted : after.actions ≡ before.actions

  -- The connection was closed.
  pub record Dropped (before after : Resources ssl) (conn : Connection) : Type 0 where
    pub kept : after.keys ≡ before.keys
    pub acted : after.actions ≡ close_fd conn.fd ∷ before.actions
    pub gone : (c : Connection) × (get_elem? after.conns i ≡ some c) × (is_used c ≡ false)
    pub table : (c : Connection) × (after.conns ≡ set before.conns i c) × (is_used c ≡ false)

  -- How the loop ends that begins with the call `n` of recv.
  pub record Ended (recv : ℕ → ℕ → ℕ → Received) (n : ℕ) (before : Resources ssl)
      (conn : Connection) (after : Resources ssl) : Type 0 where
    pub valid : Valid ssl P after
    pub bytes : Bytes
    pub calls : ℕ
    pub total : ℕ
    pub room : ℕ
    pub some_room : 0 < room
    pub heard : Heard recv n conn.buf_size bytes calls total
    pub outcome :
        (Silent kernel (recv calls total room) × Waiting before after conn bytes)
        ⊎ ((Broken kernel (recv calls total room)
              ⊎ (max_script_size ≤ conn.buf_size + length bytes))
            × Dropped before after conn)
