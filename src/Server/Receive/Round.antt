-- ===== src/Server/Receive/Round.antt =====
-- One round of the loop that receives: what each of its ends leaves, and how it joins the rounds behind it.
use simple_x509_authenticate.Common.{
  ℕ, suc, ◌+◌, ◌≤◌, ◌<◌, ◌≡◌, ◌≢◌, refl, sym, ap, subst, ◌∙◌, ◌⊎◌, inl, inr, true, [], ◌∷◌, ◌++◌,
  append_assoc, append-nil, some, Bytes, length, length-append, length-set, get_elem?, set, set-set,
  set-get_elem?, All-set, ◌!=◌, ◌||◌, Bool-cases, arith,
}
use simple_x509_authenticate.Common.Int.{eq_ℤ}
use simple_x509_authenticate.Common.Result.{Yields, Yields-mono}
use simple_x509_authenticate.Crypto.Ssl.{OpenSsl}
use simple_x509_authenticate.Crypto.{PubKey}
use simple_x509_authenticate.Server.Kernel.{Kernel, Received, failed, received}
use simple_x509_authenticate.Server.Connections.{
  max_script_size, Connection, close_fd, Resources, is_used, contents, free_conn,
}
use simple_x509_authenticate.Server.Connections.Table.{one_if, count_used, count_used-set}
use simple_x509_authenticate.Server.Connections.Owned.{holds_used, count_held-set}
use simple_x509_authenticate.Server.Connections.Invariant.{
  Valid, Freed, free_conn-Freed, free_conn-set,
}
use simple_x509_authenticate.Server.Connections.Sound.{Sound}
use simple_x509_authenticate.Server.Receive.{receive_failed}
use simple_x509_authenticate.Server.Receive.Store.{Grown, Allocated, freed-Allocated}
use simple_x509_authenticate.Server.Receive.Heard.{
  Heard, nothing, heard, Silent, Broken, Waiting, Ended,
}

module _ (ssl : OpenSsl) (P : PubKey ssl → Type 0) (kernel : Kernel) (i : ℕ) where
  pub Waiting-still :
      (resources : Resources ssl) (conn : Connection)
      → get_elem? resources.conns i ≡ some conn
      → is_used conn ≡ true
      → Waiting ssl P kernel i resources resources conn []
  Waiting-still resources conn at used = record {
    now = conn;
    at = at;
    used = used;
    fd = refl;
    since = refl;
    table = sym (set-get_elem? resources.conns i at);
    received = sym (append-nil (contents conn));
    kept = refl;
    acted = refl;
  }

  pub receive_failed-Ended :
      (recv : ℕ → ℕ → ℕ → Received) (n room errno : ℕ) (resources : Resources ssl)
      (conn : Connection)
      → Valid ssl P resources
      → get_elem? resources.conns i ≡ some conn
      → is_used conn ≡ true
      → recv n conn.buf_size room ≡ failed errno
      → 0 < room
      → Yields
          (Ended ssl P kernel i recv n resources conn)
          (receive_failed ssl kernel errno i resources)
  unfolding receive_failed Silent Broken
  receive_failed-Ended recv n room errno resources conn valid at used e space =
      elim (Bool-cases (errno != kernel.eagain || errno != kernel.ewouldblock)) [
        | inl other ↦
            let broken : (errno ≢ kernel.eagain) ⊎ (errno ≢ kernel.ewouldblock) = ground arith in
            rw (other, receive_failed)
              (Yields-mono (λ r. Freed ssl P i resources r conn)
                (Ended ssl P kernel i recv n resources conn) _
                (λ r freed. record {
                  valid = freed.valid;
                  bytes = [];
                  calls = n;
                  total = conn.buf_size;
                  room = room;
                  some_room = space;
                  heard = nothing;
                  outcome = inr (
                    inl (rw e broken),
                    record {
                      kept = freed.kept;
                      acted = freed.acted;
                      gone = freed.gone;
                      table = freed.table;
                    },
                  );
                })
                (free_conn-Freed ssl P i resources conn valid at used))
        | inr again ↦
            rw (again, receive_failed)
              (record {
                valid = valid;
                bytes = [];
                calls = n;
                total = conn.buf_size;
                room = room;
                some_room = space;
                heard = nothing;
                outcome =
                    inl (rw e (ground arith, ground arith), Waiting-still resources conn at used);
              })
      ]

  -- The rounds behind one that received `chunk`.
  pub Ended-round :
      (recv : ℕ → ℕ → ℕ → Received) (n room : ℕ) (resources after : Resources ssl)
      (conn roomy : Connection) (chunk : Bytes)
      → recv n conn.buf_size room ≡ received chunk
      → 0 < room
      → Grown conn chunk roomy
      → Ended ssl P kernel i recv
          (suc n)
          (record resources { conns = set resources.conns i roomy })
          roomy
          after
      → Ended ssl P kernel i recv n resources conn after
  Ended-round recv n room resources after conn roomy chunk e space grown ended = record {
    valid = ended.valid;
    bytes = chunk ++ ended.bytes;
    calls = ended.calls;
    total = ended.total;
    room = ended.room;
    some_room = ended.some_room;
    heard = heard e space (
        subst (λ start. Heard recv (suc n) start ended.bytes ended.calls ended.total) grown.size
          ended.heard);
    outcome = elim ended.outcome [
      | inl (silent, w) ↦ inl (
        silent,
        record {
          now = w.now;
          at = w.at;
          used = w.used;
          fd = w.fd ∙ grown.fd;
          since = w.since ∙ grown.open_time;
          table = w.table ∙ set-set resources.conns i roomy w.now;
          received =
              w.received
              ∙ ap (λ xs. xs ++ ended.bytes) grown.received
              ∙ append_assoc (contents conn) chunk ended.bytes;
          kept = w.kept;
          acted = w.acted;
        },
      )
      | inr (why, d) ↦
          let size = grown.size in
          let joined = length-append chunk ended.bytes in
          inr (
            elim why [ inl broken ↦ inl broken | inr large ↦ inr (omega arith) ],
            record {
              kept = d.kept;
              acted = d.acted ∙ ap (λ fd. close_fd fd ∷ resources.actions) grown.fd;
              gone = d.gone;
              table = (d.table.0, d.table.1 ∙ set-set resources.conns i roomy d.table.0, d.table.2);
            },
          )
    ];
  }

  -- A connection in use that was written to, in a valid table.
  pub roomy-Valid :
      (resources : Resources ssl) (conn roomy : Connection)
      → Valid ssl P resources
      → get_elem? resources.conns i ≡ some conn
      → is_used conn ≡ true
      → Sound roomy
      → is_used roomy ≡ true
      → roomy.fd ≡ conn.fd
      → Valid ssl P (record resources { conns = set resources.conns i roomy })
  roomy-Valid resources conn roomy valid at used sound in_use same =
      let change = count_used-set resources.conns i conn roomy at in
      let change : count_used (set resources.conns i roomy) ≡ count_used resources.conns =
        omega (arith, rw (used, in_use) at change) in
      record {
        table = length-set resources.conns i roomy ∙ valid.table;
        counted = valid.counted ∙ sym change;
        sound = All-set Sound resources.conns i roomy valid.sound sound;
        inside = valid.inside;
        trusted = valid.trusted;
        justified = valid.justified;
        owned = λ fd.
            let moved = count_held-set fd resources.conns i conn roomy at in
            let was = holds_used fd conn used in
            let now = holds_used fd roomy in_use in
            let same_fd : one_if (eq_ℤ fd roomy.fd) ≡ one_if (eq_ℤ fd conn.fd) =
              ap (λ x. one_if (eq_ℤ fd x)) same in
            let balance = valid.owned fd in omega arith;
      }

  pub overflow-Ended :
      (recv : ℕ → ℕ → ℕ → Received) (n room : ℕ) (resources : Resources ssl)
      (conn more : Connection) (chunk : Bytes)
      → Valid ssl P resources
      → get_elem? resources.conns i ≡ some conn
      → is_used conn ≡ true
      → recv n conn.buf_size room ≡ received chunk
      → 0 < room
      → Grown conn chunk more
      → Allocated more
      → max_script_size ≤ more.buf_size
      → 0 < more.buf_cap
      → Yields
          (Ended ssl P kernel i recv n resources conn)
          (free_conn ssl i (record resources { conns = set resources.conns i more }))
  unfolding is_used
  overflow-Ended recv n room resources conn more chunk valid at used e space grown a large
        room_there =
      let in_use : is_used more ≡ true = rw grown.fd used in
      let size = grown.size in
      let joined = length-append chunk [] in
      Yields-mono (λ r. Freed ssl P i resources r more) (Ended ssl P kernel i recv n resources conn)
        _
        (λ r freed. record {
          valid = freed.valid;
          bytes = chunk ++ [];
          calls = suc n;
          total = conn.buf_size + length chunk;
          room = 1;
          some_room = omega arith;
          heard = heard e space nothing;
          outcome = inr (
            inr (omega arith),
            record {
              kept = freed.kept;
              acted = freed.acted ∙ ap (λ fd. close_fd fd ∷ resources.actions) grown.fd;
              gone = freed.gone;
              table = freed.table;
            },
          );
        })
        (free_conn-set ssl P i resources conn more valid at used in_use grown.fd
          (freed-Allocated more a room_there))
