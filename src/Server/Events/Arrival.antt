-- ===== src/Server/Events/Arrival.antt =====
-- What a client sends arrives in the buffer of its connection.
use simple_x509_authenticate.Common.{
  ℕ, ◌≤◌, ◌<◌, ◌≡◌, refl, subst, inl, inr, true, [], Option-cases, some, Bytes, length, get_elem?,
  arith,
}
use simple_x509_authenticate.Common.Int.{ℤ}
use simple_x509_authenticate.Common.Result.{Yields, Yields-mono}
use simple_x509_authenticate.Crypto.Ssl.{OpenSsl}
use simple_x509_authenticate.Crypto.{PubKey}
use simple_x509_authenticate.Server.Kernel.{Kernel, Received, Answers, Event, Allocates, Within}
use simple_x509_authenticate.Server.Connections.{
  max_script_size, Connection, Resources, is_used, contents,
}
use simple_x509_authenticate.Server.Connections.Invariant.{Valid}
use simple_x509_authenticate.Server.Receive.{receive}
use simple_x509_authenticate.Server.Receive.Loop.{receive-Ended}
use simple_x509_authenticate.Server.Receive.Heard.{Heard, Silent, Broken, Waiting, Ended}
use simple_x509_authenticate.Server.Events.{on_input}
use simple_x509_authenticate.Server.Events.Going.{going-Yields}

-- recv answers the bytes of `sent`, in any pieces, then that there is no more, and never fails.
pub record Delivers (kernel : Kernel) (recv : ℕ → ℕ → ℕ → Received) (sent : Bytes) : Type 0 where
  pub inside :
      (bytes : Bytes) (m total : ℕ) → Heard recv 0 0 bytes m total → length bytes ≤ length sent
  pub sound :
      (bytes : Bytes) (m total room : ℕ)
      → Heard recv 0 0 bytes m total
      → 0 < room
      → Broken kernel (recv m total room)
      → ⊥
  pub complete :
      (bytes : Bytes) (m total room : ℕ)
      → Heard recv 0 0 bytes m total
      → 0 < room
      → Silent kernel (recv m total room)
      → bytes ≡ sent

pub contents-nothing : (conn : Connection) → conn.buf_size ≡ 0 → contents conn ≡ []
unfolding contents
contents-nothing conn nothing = elim (Option-cases conn.buf) [
  | inl missing ↦ rw (contents, missing) refl
  | inr (mem, e) ↦ rw (contents, e, nothing) refl
]

module _ (ssl : OpenSsl) (P : PubKey ssl → Type 0) (kernel : Kernel) (i : ℕ) where
  -- What was sent stands in the buffer, and nothing else has happened.
  unfoldable pub Arrived : Resources ssl → Connection → Bytes → Resources ssl → Type 0
  Arrived before conn sent after = Valid ssl P after × Waiting ssl P kernel i before after conn sent

  receive-Arrived :
      (recv : ℤ → ℕ → ℕ → ℕ → Received) (sent : Bytes) (resources : Resources ssl)
      (conn : Connection)
      → Allocates kernel
      → ((fd : ℤ) (n before room : ℕ) → Within room (recv fd n before room))
      → Delivers kernel (recv conn.fd) sent
      → conn.buf_size ≡ 0
      → length sent < max_script_size
      → Valid ssl P resources
      → get_elem? resources.conns i ≡ some conn
      → is_used conn ≡ true
      → Yields (Arrived resources conn sent) (receive ssl kernel recv i resources)
  unfolding Arrived
  receive-Arrived recv sent resources conn allocates within delivers nothing fits valid at used =
      Yields-mono (Ended ssl P kernel i (recv conn.fd) 0 resources conn)
        (Arrived resources conn sent) _
        (λ after ended.
          let told =
            subst (λ start. Heard (recv conn.fd) 0 start ended.bytes ended.calls ended.total)
              nothing ended.heard in
          (
            ended.valid,
            elim ended.outcome [
              | inl (silent, waiting) ↦
                  subst (λ bytes. Waiting ssl P kernel i resources after conn bytes)
                    (delivers.complete ended.bytes ended.calls ended.total ended.room told
                      ended.some_room silent)
                    waiting
              | inr (inl broken, dropped) ↦ absurd (
                  delivers.sound ended.bytes ended.calls ended.total ended.room told ended.some_room
                    broken)
              | inr (inr large, dropped) ↦
                  let few = delivers.inside ended.bytes ended.calls ended.total told in
                  absurd (omega arith)
            ],
          ))
        (receive-Ended ssl P kernel recv i resources conn allocates within valid at used)

  pub on_input-Arrived :
      (answers : Answers) (event : Event) (sent : Bytes) (resources : Resources ssl)
      (conn : Connection)
      → Allocates kernel
      → ((fd : ℤ) (n before room : ℕ) → Within room (answers.recv fd n before room))
      → Delivers kernel (answers.recv conn.fd) sent
      → conn.buf_size ≡ 0
      → length sent < max_script_size
      → event.epollin ≡ true
      → Valid ssl P resources
      → get_elem? resources.conns i ≡ some conn
      → is_used conn ≡ true
      → Yields (Arrived resources conn sent) (on_input ssl kernel answers event i resources)
  unfolding on_input
  on_input-Arrived answers event sent resources conn allocates within delivers nothing fits input
        valid at used =
      rw (input, on_input)
        (going-Yields (Resources ssl) (Arrived resources conn sent) _ (
          receive-Arrived answers.recv sent resources conn allocates within delivers nothing fits
            valid at used))
