-- ===== src/Server/Connections/Accept.antt =====
-- The accepting of a connection in src/main.c: a full table loses its oldest connection, and the new
-- one takes the first free place.
use simple_x509_authenticate.Common.{
  ℕ, ◌+◌, ◌<◌, ◌≡◌, refl, ap, ◌∙◌, ◌⊎◌, inl, inr, true, false, List, [], ◌∷◌, Option, none, some,
  length-set, get_elem?, set, All, All-set, All-get_elem?, add64, leb, Bool-cases, arith,
}
use simple_x509_authenticate.Common.Int.{ℤ, pos, negsuc, ltb_ℤ, eq_ℤ}
use simple_x509_authenticate.Common.Result.{ok, ◌>>◌, check, Yields, Yields-bind, Yields-mono}
use simple_x509_authenticate.Crypto.Ssl.{OpenSsl}
use simple_x509_authenticate.Crypto.{PubKey}
use simple_x509_authenticate.Server.Kernel.{Kernel, Answers, Allocates, Answered}
use simple_x509_authenticate.Server.Connections.{
  max_concurrency, max_int64, Connection, NoExit, Action, close_fd, Resources, is_used, open_conn,
  free_oldest, make_room, take_unused, add_conn, accept_conn,
}
use simple_x509_authenticate.Server.Connections.Table.{
  one_if, count_used, count_used-set, count_used-le, FoundUnused, unused-FoundUnused, Since,
  FoundOldest, IsOldest, oldest-FoundOldest,
}
use simple_x509_authenticate.Server.Connections.Owned.{
  holds_used, holds_free, count_held-set, occurrences,
}
use simple_x509_authenticate.Server.Connections.Invariant.{Valid, Freed, free_conn-Freed}
use simple_x509_authenticate.Server.Connections.Sound.{Sound, open_conn-Sound, open_conn-members}

-- Connections that are all opened later than any time are not in use.
none_used :
    (conns : List Connection) → All Sound conns → All (Since max_int64) conns → count_used conns ≡ 0
unfolding count_used
none_used [] sound since = refl
none_used (c ∷ conns) (s, sound) (late, since) = elim (Bool-cases (is_used c)) [
  | inl used ↦ let y = s.young in let l = late used in cc
  | inr free ↦ rw free (omega (arith, none_used conns sound since))
]

positive_ℤ : (z : ℤ) → ltb_ℤ z (pos 0) ≡ false → eq_ℤ z (pos 0) ≡ false → ltb_ℤ (pos 0) z ≡ true
positive_ℤ (pos n) h k = ground arith
positive_ℤ (negsuc n) h k = ground arith

module _ (ssl : OpenSsl) (P : PubKey ssl → Type 0) where
  -- Nobody had to go, or the oldest connection of a full table was closed.
  abbrev pub Evicted : Resources ssl → List Connection → List (Action ssl) → Type 0
  Evicted before conns actions =
      ((before.conns_total < max_concurrency) × (conns ≡ before.conns) × (actions ≡ before.actions))
      ⊎ ((k : ℕ) × (conn : Connection) × (gone : Connection) × (before.conns_total
            ≡ max_concurrency)
          × IsOldest before.conns k conn
          × (conns ≡ set before.conns k gone)
          × (is_used gone ≡ false)
          × (actions ≡ close_fd conn.fd ∷ before.actions))

  record RoomMade (before after : Resources ssl) : Type 0 where
    valid : Valid ssl P after
    few : after.conns_total < max_concurrency
    evicted : Evicted before after.conns after.actions
    same_keys : after.keys ≡ before.keys

  free_oldest-RoomMade :
      (resources : Resources ssl) (found : Option ℕ)
      → Valid ssl P resources
      → resources.conns_total ≡ max_concurrency
      → FoundOldest resources.conns 0 max_int64 none found
      → Yields (RoomMade resources) (free_oldest ssl found resources)
  unfolding free_oldest
  free_oldest-RoomMade resources found valid full (inl (e, since)) =
      let nobody = none_used resources.conns valid.sound since in
      let total = valid.counted in absurd (omega arith)
  free_oldest-RoomMade resources none valid full (inr (k, conn, e, before, o)) = cc
  free_oldest-RoomMade resources (some i) valid full (inr (k, conn, e, before, o)) =
      let same : i ≡ k = omega (arith, some_ℕ-injective e) in
      Yields-mono (λ r. Freed ssl P i resources r conn) (RoomMade resources) _
        (λ r freed.
          let fewer = freed.fewer in
          record {
            valid = freed.valid;
            few = omega arith;
            evicted = inr (
              k,
              conn,
              freed.table.0,
              full,
              o,
              freed.table.1 ∙ ap (λ j. set resources.conns j freed.table.0) same,
              freed.table.2,
              freed.acted,
            );
            same_keys = freed.kept;
          })
        (free_conn-Freed ssl P i resources conn valid (rw same o.at) o.used)
    where
      some_ℕ-injective : {a b : ℕ} → some a ≡ some b → a ≡ b
      some_ℕ-injective h = cc

  make_room-RoomMade :
      (resources : Resources ssl)
      → Valid ssl P resources
      → Yields (RoomMade resources) (make_room ssl resources)
  unfolding make_room
  make_room-RoomMade resources valid =
      let few = count_used-le resources.conns in
      let whole = valid.table in
      let total = valid.counted in
      elim (Bool-cases (leb max_concurrency resources.conns_total)) [
        | inl full ↦
            rw (full, make_room)
              (free_oldest-RoomMade resources _ valid (ground arith)
                (oldest-FoundOldest resources.conns 0 max_int64 none))
        | inr room ↦
            rw (room, make_room)
              (record {
                valid = valid;
                few = ground arith;
                evicted = inl (ground arith, refl, refl);
                same_keys = refl;
              })
      ]

  -- What accept_conn answers where there is a connection to accept, or there is none any more.
  pub record Placed (before : Resources ssl) (accept clock : ℤ) (after : Resources ssl)
      : Type 0 where
    pub valid : Valid ssl P after
    pub conns : List Connection
    pub few : count_used conns < max_concurrency
    pub evicted : Evicted before conns after.actions
    pub same_keys : after.keys ≡ before.keys
    pub refused : ltb_ℤ accept (pos 0) ≡ true → after.conns ≡ conns
    pub placed :
        ltb_ℤ accept (pos 0) ≡ false
        → (i : ℕ) × (old : Connection) × (conn : Connection) × (get_elem? conns i ≡ some old)
          × (is_used old ≡ false)
          × (after.conns ≡ set conns i conn)
          × (is_used conn ≡ true)
          × (conn.fd ≡ accept)
          × (conn.buf_size ≡ 0)
          × (conn.open_time ≡ clock)

  module _ (kernel : Kernel) (answers : Answers) (allocates : Allocates kernel)
      (answered : Answered answers) (added : answers.added ≡ true) where
    place-Placed :
        (before resources : Resources ssl) (found : Option (ℕ × Connection))
        → RoomMade before resources
        → ltb_ℤ answers.accept (pos 0) ≡ false
        → FoundUnused resources.conns 0 found
        → Yields {E = NoExit} (Placed before answers.accept answers.clock) (
            let (conn_fd, after) =
              take_unused ssl kernel true answers.clock answers.accept found (record resources {
                conns_total = add64 resources.conns_total 1;
                accepted = answers.accept ∷ resources.accepted;
              }) in
            check (eq_ℤ conn_fd (pos 0)) >> ok after)
    unfolding take_unused check occurrences
    place-Placed before resources none made positive full =
        let few = made.few in
        let total = made.valid.counted in let whole = made.valid.table in absurd (omega arith)
    place-Placed before resources (some (j, conn)) made positive (k, e, at, free) =
        let v = made.valid in
        let few = made.few in
        let total = v.counted in
        let whole = v.table in
        let conns = resources.conns in
        let opened = open_conn kernel answers.accept answers.clock conn in
        let same : j ≡ k = omega arith in
        let in_use = positive_ℤ answers.accept positive answered.accepted in
        let (sound, used) =
          open_conn-Sound kernel answers.accept answers.clock conn allocates in_use answered.young
            (All-get_elem? Sound conns k v.sound at) free in
        let nothing = (All-get_elem? Sound conns k v.sound at).empty free in
        let shown = open_conn-members kernel answers.accept answers.clock conn nothing in
        let change = count_used-set conns k conn opened at in
        let change : count_used (set conns k opened) ≡ count_used conns + 1 =
          omega (arith, rw (free, used) at change) in
        rw same (record {
          valid = record {
            table = length-set conns k opened ∙ whole;
            counted = omega arith;
            sound = All-set Sound conns k opened v.sound sound;
            inside = v.inside;
            trusted = v.trusted;
            justified = v.justified;
            owned = λ fd.
                let moved = count_held-set fd conns k conn opened at in
                let was = holds_free fd conn free in
                let now = holds_used fd opened used in
                let same_fd : one_if (eq_ℤ fd opened.fd) ≡ one_if (eq_ℤ fd answers.accept) =
                  ap (λ x. one_if (eq_ℤ fd x)) shown.0 in
                let balance = v.owned fd in omega arith;
          };
          conns = conns;
          few = omega arith;
          evicted = made.evicted;
          same_keys = made.same_keys;
          refused = λ refused. cc;
          placed = λ _. (k, conn, opened, at, free, refl, used, shown.0, shown.1, shown.2);
        })

    -- Where epoll_ctl succeeds, accept_conn fails no assert and leaves a valid table. If the table was
    -- not full, no connection is closed; if it was, exactly one is, which was in use, and none in use
    -- was opened before it. If accept answered a descriptor, an entry of the table that was not in use
    -- has it, with the time of clock, and has received nothing yet. All other entries, and the keys,
    -- stay as they are.
    pub accept_conn-Placed :
        (resources : Resources ssl)
        → Valid ssl P resources
        → Yields
            (Placed resources answers.accept answers.clock)
            (accept_conn ssl kernel answers resources)
    unfolding accept_conn add_conn
    accept_conn-Placed resources valid =
        Yields-bind (RoomMade resources) (Placed resources answers.accept answers.clock)
          (make_room ssl resources) _ (make_room-RoomMade resources valid)
          λ r _ made. elim (Bool-cases (ltb_ℤ answers.accept (pos 0))) [
            | inl refused ↦
                rw (refused, add_conn)
                  (record {
                    valid = made.valid;
                    conns = r.conns;
                    few = let total = made.valid.counted in let few = made.few in omega arith;
                    evicted = made.evicted;
                    same_keys = made.same_keys;
                    refused = λ _. refl;
                    placed = λ positive. cc;
                  })
            | inr positive ↦
                rw (positive, added, add_conn)
                  (place-Placed resources r _ made positive (unused-FoundUnused r.conns 0))
          ]
