-- ===== src/Server/Receive/Loop.antt =====
-- What a connection holds behind the loop that receives.
use simple_x509_authenticate.Common.{
  ℕ, zero, suc, ◌+◌, ◌≤◌, ◌<◌, ◌≡◌, subst, inl, inr, true, [], some, length, get_elem?,
  get_elem?-set, set, All-get_elem?, sub64, leb, ◌==◌, Bool-cases, arith,
}
use simple_x509_authenticate.Common.Int.{ℤ}
use simple_x509_authenticate.Common.Result.{Yields, Yields-bind, Yields-mono}
use simple_x509_authenticate.Common.Buffer.{Yields-some}
use simple_x509_authenticate.Crypto.Ssl.{OpenSsl}
use simple_x509_authenticate.Crypto.{PubKey}
use simple_x509_authenticate.Server.Kernel.{Kernel, Received, Within, Allocates}
use simple_x509_authenticate.Server.Connections.{max_script_size, Connection, Resources, is_used}
use simple_x509_authenticate.Server.Connections.Invariant.{Valid}
use simple_x509_authenticate.Server.Connections.Sound.{Sound}
use simple_x509_authenticate.Server.Receive.{append_received, keep_room, receive_loop, receive}
use simple_x509_authenticate.Server.Receive.Store.{
  used-Allocated, append_received-Grown, Roomy, keep_room-Roomy,
}
use simple_x509_authenticate.Server.Receive.Heard.{nothing, Silent, Received-cases, Ended}
use simple_x509_authenticate.Server.Receive.Round.{
  Waiting-still, receive_failed-Ended, Ended-round, roomy-Valid, overflow-Ended,
}

module _ (ssl : OpenSsl) (P : PubKey ssl → Type 0) (kernel : Kernel) (i : ℕ)
    (allocates : Allocates kernel) (recv : ℤ → ℕ → ℕ → ℕ → Received)
    (within : (fd : ℤ) (n before room : ℕ) → Within room (recv fd n before room)) where
  receive_loop-Ended :
      (fuel n : ℕ) (resources : Resources ssl) (conn : Connection)
      → Valid ssl P resources
      → get_elem? resources.conns i ≡ some conn
      → is_used conn ≡ true
      → max_script_size < fuel + conn.buf_size
      → Yields
          (Ended ssl P kernel i (recv conn.fd) n resources conn)
          (receive_loop ssl kernel fuel recv n i resources)
  unfolding receive_loop Silent
  receive_loop-Ended zero n resources conn valid at used lt =
      let small = (All-get_elem? Sound resources.conns i valid.sound at).small in
      absurd (omega arith)
  receive_loop-Ended (suc fuel) n resources conn valid at used lt =
      let sound = All-get_elem? Sound resources.conns i valid.sound at in
      let (a, space) = used-Allocated conn sound used in
      let capacity = a.capacity in
      let room = sub64 conn.buf_cap conn.buf_size in
      let E = Ended ssl P kernel i (recv conn.fd) n resources conn in
      Yields-some E _ _ at (elim (Received-cases (recv conn.fd n conn.buf_size room)) [
        | inl (errno, e) ↦ rw e (
            receive_failed-Ended ssl P kernel i (recv conn.fd) n room errno resources conn valid at
              used e (omega arith))
        | inr (chunk, e) ↦ rw e (elim (Bool-cases (length chunk == 0)) [
          | inl ended ↦ rw ended (record {
            valid = valid;
            bytes = [];
            calls = n;
            total = conn.buf_size;
            room = room;
            some_room = omega arith;
            heard = nothing;
            outcome =
                inl (rw e (ground arith), Waiting-still ssl P kernel i resources conn at used);
          })
          | inr some_bytes ↦ rw some_bytes (
              let fits : length chunk ≤ room =
                subst (Within room) e (within conn.fd n conn.buf_size room) in
              Yields-bind _ E (append_received chunk conn) _
                (append_received-Grown chunk conn sound used (omega arith))
                λ more _ (grown, b, cap).
                  let size = grown.size in
                  elim (Bool-cases (leb max_script_size more.buf_size)) [
                    | inl large ↦ rw large (
                        overflow-Ended ssl P kernel i (recv conn.fd) n room resources conn more
                          chunk valid at used e (omega arith) grown b (ground arith) (omega arith))
                    | inr small ↦ rw small (
                        Yields-bind (Roomy conn chunk) E (keep_room kernel more) _
                          (keep_room-Roomy kernel conn more chunk allocates sound used grown b
                            (omega arith) (ground arith) (ground arith))
                          λ roomy _ r.
                            let longer = r.grown.size in
                            Yields-mono _ E _
                              (λ after ended.
                                Ended-round ssl P kernel i (recv conn.fd) n room resources after
                                  conn roomy chunk e (omega arith) r.grown
                                  (subst
                                    (λ fd.
                                      Ended ssl P kernel i (recv fd) (suc n)
                                        (record resources { conns = set resources.conns i roomy })
                                        roomy after)
                                    r.grown.fd ended))
                              (receive_loop-Ended fuel (suc n)
                                (record resources { conns = set resources.conns i roomy }) roomy
                                (roomy-Valid ssl P kernel i resources conn roomy valid at used
                                  r.sound r.used r.grown.fd)
                                (get_elem?-set resources.conns i roomy at) r.used (ground arith)))
                  ])
        ])
      ])

-- Whatever recv answers within the room that it is given, the loop that receives on a connection in
-- use ends; it writes no byte outside of the buffer, and the table is valid behind it. The
-- connection then holds what it held before and behind that the bytes that the calls of recv on its
-- descriptor answered, in their order, where the last call answered that there are no more for now;
-- or it was closed, because the last call failed with another errno, or max_script_size was
-- reached.
pub receive-Ended :
    (ssl : OpenSsl) (P : PubKey ssl → Type 0) (kernel : Kernel) (recv : ℤ → ℕ → ℕ → ℕ → Received)
    (i : ℕ) (resources : Resources ssl) (conn : Connection)
    → Allocates kernel
    → ((fd : ℤ) (n before room : ℕ) → Within room (recv fd n before room))
    → Valid ssl P resources
    → get_elem? resources.conns i ≡ some conn
    → is_used conn ≡ true
    → Yields
        (Ended ssl P kernel i (recv conn.fd) 0 resources conn)
        (receive ssl kernel recv i resources)
unfolding receive
receive-Ended ssl P kernel recv i resources conn allocates within valid at used =
    receive_loop-Ended ssl P kernel i allocates recv within (suc max_script_size) 0 resources conn
      valid at used (omega arith)
