-- ===== src/Server/Sessions/Moved.antt =====
-- What the parts of the event loop do to the sessions.
use simple_x509_authenticate.Common.{
  ℕ, ◌≡◌, ◌<◌, refl, subst, sym, ap, ap₂, ◌∙◌, inl, inr, true, false, List, [], ◌∷◌, ◌++◌, some,
  Bytes, length, get_elem?, set, All-get_elem?, Bool-cases, arith,
}
use simple_x509_authenticate.Common.Int.{pos, ltb_ℤ}
use simple_x509_authenticate.Crypto.Ssl.{OpenSsl}
use simple_x509_authenticate.Crypto.{PubKey}
use simple_x509_authenticate.Server.Kernel.{Kernel, Answers}
use simple_x509_authenticate.Server.Connections.{
  Connection, Resources, Action, close_fd, is_used, contents,
}
use simple_x509_authenticate.Server.Connections.Table.{count_used}
use simple_x509_authenticate.Server.Connections.Sound.{Sound, contents-length}
use simple_x509_authenticate.Server.Connections.Invariant.{Valid, Freed}
use simple_x509_authenticate.Server.Connections.Accept.{Evicted, Placed}
use simple_x509_authenticate.Server.Receive.Heard.{Heard, Silent, Waiting, Ended}
use simple_x509_authenticate.Server.Receive.Store.{contents-length_used}
use simple_x509_authenticate.Server.Events.Arrival.{contents-nothing}
use simple_x509_authenticate.Server.Sessions.{
  add, Spec, Move, arrive, evict, close, Moves, still, moved, Hears, hears, Turn, unheard, listened,
}
use simple_x509_authenticate.Server.Sessions.Table.{
  session_of, opened, view, except, opened_used, opened_free, opened-set_used, opened-set_free,
  opened-Size, except-Every,
}

pub Spec-ext :
    (ssl : OpenSsl) (a b : Spec ssl)
    → a.sessions ≡ b.sessions
    → a.script_n ≡ b.script_n
    → a.actions ≡ b.actions
    → a ≡ b
Spec-ext ssl a b sessions number actions =
    λ i. record { sessions = sessions i; script_n = number i; actions = actions i }

module _ (ssl : OpenSsl) (P : PubKey ssl → Type 0) (kernel : Kernel) (answers : Answers) where
  pub moved_once :
      {before after : Spec ssl} → Move ssl P answers before after → Moves ssl P answers before after
  moved_once m = moved still m

  pub Moves-trans :
      {start before after : Spec ssl}
      → Moves ssl P answers start before
      → Moves ssl P answers before after
      → Moves ssl P answers start after
  Moves-trans earlier still = earlier
  Moves-trans earlier (moved later m) = moved (Moves-trans earlier later) m

  -- A connection in use is closed, with the keys that `keys_now` has.
  pub closed-Move :
      (i : ℕ) (before after : Resources ssl) (conn gone : Connection)
      → get_elem? before.conns i ≡ some conn
      → is_used conn ≡ true
      → after.conns ≡ set before.conns i gone
      → is_used gone ≡ false
      → after.keys.script_n ≡ before.keys.script_n
      → after.actions ≡ close_fd conn.fd ∷ before.actions
      → Move ssl P answers (view ssl before) (view ssl after)
  unfolding session_of
  closed-Move i before after conn gone at used table free number acted =
      close (session_of conn) (opened (except i before.conns))
        (opened_used before.conns i conn at used)
        (Spec-ext ssl _ _ (ap opened table ∙ opened-set_free before.conns i conn gone at free)
          number acted)

  pub Freed-Move :
      (i : ℕ) (before after : Resources ssl) (conn : Connection)
      → get_elem? before.conns i ≡ some conn
      → is_used conn ≡ true
      → Freed ssl P i before after conn
      → Move ssl P answers (view ssl before) (view ssl after)
  Freed-Move i before after conn at used freed =
      closed-Move i before after conn freed.table.0 at used freed.table.1 freed.table.2
        (ap (λ keys. keys.script_n) freed.kept) freed.acted

  Waiting-Hears :
      (i : ℕ) (before after : Resources ssl) (conn : Connection) (bytes : Bytes)
      (calls total room : ℕ)
      → get_elem? before.conns i ≡ some conn
      → is_used conn ≡ true
      → Valid ssl P before
      → Valid ssl P after
      → Heard (answers.recv conn.fd) 0 conn.buf_size bytes calls total
      → 0 < room
      → Silent kernel (answers.recv conn.fd calls total room)
      → Waiting ssl P kernel i before after conn bytes
      → Hears ssl P answers kernel (view ssl before) (view ssl after)
  unfolding session_of
  Waiting-Hears i before after conn bytes calls total room at used old valid told space silent w =
      let small = contents-length w.now (All-get_elem? Sound after.conns i valid.sound w.at) in
      let size = ap length w.received in
      let held = contents-length_used conn (All-get_elem? Sound before.conns i old.sound at) used in
      let now : session_of w.now
          ≡ record { fd = conn.fd; since = conn.open_time; received = contents conn ++ bytes } =
        λ j. record { fd = w.fd j; since = w.since j; received = w.received j } in
      let others = opened (except i before.conns) in
      hears (session_of conn) others bytes calls total room
        (opened_used before.conns i conn at used)
        (subst (λ start. Heard (answers.recv conn.fd) 0 start bytes calls total) (sym held) told)
        space silent (omega arith)
        (Spec-ext ssl _ _
          (ap opened w.table
            ∙ opened-set_used before.conns i conn w.now at w.used
            ∙ ap (λ s. add s others) now)
          (ap (λ keys. keys.script_n) w.kept) w.acted)

  pub Ended-Turn :
      (i : ℕ) (before after : Resources ssl) (conn : Connection)
      → get_elem? before.conns i ≡ some conn
      → is_used conn ≡ true
      → Valid ssl P before
      → Ended ssl P kernel i (answers.recv conn.fd) 0 before conn after
      → Turn ssl P answers kernel (view ssl before) (view ssl after)
  Ended-Turn i before after conn at used old ended = elim ended.outcome [
    | inl (silent, w) ↦
        listened
          (Waiting-Hears i before after conn ended.bytes ended.calls ended.total ended.room at used
            old ended.valid ended.heard ended.some_room silent w)
          still
    | inr (why, d) ↦ unheard (
        moved_once (
          closed-Move i before after conn d.table.0 at used d.table.1 d.table.2
            (ap (λ keys. keys.script_n) d.kept) d.acted))
  ]

  -- Behind the eviction, in front of the accepting.
  abbrev between : Resources ssl → List Connection → List (Action ssl) → Spec ssl
  between before conns actions = record {
    sessions = opened conns;
    script_n = before.keys.script_n;
    actions = actions;
  }

  Evicted-Moves :
      (before : Resources ssl) (conns : List Connection) (actions : List (Action ssl))
      → Valid ssl P before
      → Evicted ssl P before conns actions
      → Moves ssl P answers (view ssl before) (between before conns actions)
  unfolding session_of
  Evicted-Moves before conns actions valid (inl (room, same, quiet)) =
      let e : between before conns actions ≡ view ssl before =
        Spec-ext ssl _ _ (ap opened same) refl quiet in
      rw e still
  Evicted-Moves before conns actions valid (inr (k, conn, gone, full, o, table, free, acted)) =
      let (xs, e, size) = opened-Size before.conns in
      let counted = valid.counted in
      moved_once (
        evict (session_of conn) (opened (except k before.conns))
          (opened_used before.conns k conn o.at o.used) (xs, e, omega arith)
          (except-Every conn.open_time k before.conns o.first)
          (Spec-ext ssl _ _ (ap opened table ∙ opened-set_free before.conns k conn gone o.at free)
            refl acted))

  pub Placed-Moves :
      (before after : Resources ssl)
      → Valid ssl P before
      → Placed ssl P before answers.accept answers.clock after
      → Moves ssl P answers (view ssl before) (view ssl after)
  unfolding session_of
  Placed-Moves before after valid placed =
      let first = Evicted-Moves before placed.conns after.actions valid placed.evicted in
      let number : after.keys.script_n ≡ before.keys.script_n =
        ap (λ keys. keys.script_n) placed.same_keys in
      elim (Bool-cases (ltb_ℤ answers.accept (pos 0))) [
        | inl refused ↦
            let e : view ssl after ≡ between before placed.conns after.actions =
              Spec-ext ssl _ _ (ap opened (placed.refused refused)) number refl in
            rw e first
        | inr answered ↦
            let (i, old, conn, at, free, table, used, fd, nothing, since) =
              placed.placed answered in
            let now : session_of conn
                ≡ record { fd = answers.accept; since = answers.clock; received = [] } =
              λ j. record {
                fd = fd j;
                since = since j;
                received = contents-nothing conn nothing j;
              } in
            let others = opened (except i placed.conns) in
            moved first (
              arrive (count_used placed.conns) (opened-Size placed.conns) placed.few (
                Spec-ext ssl _ _
                  (ap opened table
                    ∙ opened-set_used placed.conns i old conn at used
                    ∙ ap₂ add now (sym (opened_free placed.conns i old at free)))
                  number refl))
      ]

  -- A valid state behind some moves.
  pub record Stepped (before after : Resources ssl) : Type 0 where
    pub valid : Valid ssl P after
    pub moves : Moves ssl P answers (view ssl before) (view ssl after)

  pub Stepped-still :
      (resources : Resources ssl) → Valid ssl P resources → Stepped resources resources
  Stepped-still resources valid = record { valid = valid; moves = still }

  pub Stepped-trans :
      (start before after : Resources ssl)
      → Stepped start before
      → Stepped before after
      → Stepped start after
  Stepped-trans start before after earlier later = record {
    valid = later.valid;
    moves = Moves-trans earlier.moves later.moves;
  }

  -- A valid state behind one event, or a part of its handling that begins it.
  pub record Turned (before after : Resources ssl) : Type 0 where
    pub valid : Valid ssl P after
    pub turn : Turn ssl P answers kernel (view ssl before) (view ssl after)

  pub Turned-then :
      (start before after : Resources ssl)
      → Turned start before
      → Stepped before after
      → Turned start after
  Turned-then start before after earlier later = record {
    valid = later.valid;
    turn = elim earlier.turn [
      | unheard moves ↦ unheard (Moves-trans moves later.moves)
      | listened hear moves ↦ listened hear (Moves-trans moves later.moves)
    ];
  }

  pub Stepped-Turned : (before after : Resources ssl) → Stepped before after → Turned before after
  Stepped-Turned before after stepped = record {
    valid = stepped.valid;
    turn = unheard stepped.moves;
  }
