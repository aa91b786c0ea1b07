-- ===== src/Server/Connections/Invariant.antt =====
-- What holds of the table of connections and of the keys between two events, and that free_conn
-- and the accepting of a connection keep it.
use simple_x509_authenticate.Common.{
  ℕ, ◌+◌, ◌≤◌, ◌<◌, ◌≡◌, refl, ap, subst, ◌∙◌, true, false, ◌∷◌, some, Bytes, length, length-set,
  get_elem?, get_elem?-set, set, set-set, set-get_elem?, All, All-set, All-get_elem?, sub64, arith,
}
use simple_x509_authenticate.Common.Int.{ℤ, pos, ltb_ℤ, eq_ℤ}
use simple_x509_authenticate.Common.Result.{ok, Yields}
use simple_x509_authenticate.Common.Buffer.{Yields-some}
use simple_x509_authenticate.Crypto.Ssl.{OpenSsl}
use simple_x509_authenticate.Crypto.{PubKey, pub_key_verify}
use simple_x509_authenticate.Server.Scripts.{Keys}
use simple_x509_authenticate.Server.Connections.{
  max_script_size, max_concurrency, Connection, initial, Action, close_fd, call_exec_script,
  Resources, is_used, free_conn,
}
use simple_x509_authenticate.Server.Connections.Table.{
  one_if, count_used, count_used-set, count_used-le,
}
use simple_x509_authenticate.Server.Connections.Owned.{
  holds_used, holds_free, count_held, count_held-set, count_held-replicate, occurrences, closes,
}
use simple_x509_authenticate.Server.Connections.Sound.{
  Sound, freed-Sound, freed-is_used, replicate-Sound,
}

module _ (ssl : OpenSsl) (P : PubKey ssl → Type 0) where
  -- A script that was executed had been verified by a key that `P` holds of, which had not expired at `now`, and
  -- was shorter than what a connection can receive.
  pub record Verified (key : PubKey ssl) (script : Bytes) (now : ℤ) : Type 0 where
    pub trusted : P key
    pub sig : Bytes
    pub size : length sig ≡ key.exp_sig_size
    pub verified : pub_key_verify ssl key script sig ≡ ok true
    pub valid : ltb_ℤ key.expiry now ≡ false
    pub small : length script < max_script_size

  abbrev pub Justified : Action ssl → Type 0
  Justified (close_fd fd) = Unit {0}
  Justified (call_exec_script key script n now) = Verified key script now

  pub record Valid (resources : Resources ssl) : Type 0 where
    pub table : length resources.conns ≡ max_concurrency
    pub counted : resources.conns_total ≡ count_used resources.conns
    pub sound : All Sound resources.conns
    pub inside : resources.keys.keys_size ≤ length resources.keys.keys
    pub trusted : All P resources.keys.keys
    pub justified : All Justified resources.actions
    pub owned :
        (fd : ℤ)
        → closes ssl fd resources.actions + count_held fd resources.conns
          ≡ occurrences fd resources.accepted

  -- What free_conn answers, for the connection at `i`, which was in use.
  pub record Freed (i : ℕ) (before after : Resources ssl) (conn : Connection) : Type 0 where
    pub valid : Valid after
    pub fewer : after.conns_total + 1 ≡ before.conns_total
    pub acted : after.actions ≡ close_fd conn.fd ∷ before.actions
    pub kept : after.keys ≡ before.keys
    pub gone : (c : Connection) × (get_elem? after.conns i ≡ some c) × (is_used c ≡ false)
    pub table : (c : Connection) × (after.conns ≡ set before.conns i c) × (is_used c ≡ false)

  -- `conn` may have been written to since the table was valid.
  pub free_conn-set :
      (i : ℕ) (resources : Resources ssl) (old conn : Connection)
      → Valid resources
      → get_elem? resources.conns i ≡ some old
      → is_used old ≡ true
      → is_used conn ≡ true
      → conn.fd ≡ old.fd
      → Sound (record conn { fd = pos 0; buf_size = 0; open_time = pos 0 })
      → Yields
          (λ r. Freed i resources r conn)
          (free_conn ssl i (record resources { conns = set resources.conns i conn }))
  unfolding free_conn closes
  free_conn-set i resources old conn valid at was_used used same sound =
      let gone = record conn { fd = pos 0; buf_size = 0; open_time = pos 0 } in
      let conns = resources.conns in
      let free = freed-is_used conn in
      let change = count_used-set conns i old gone at in
      let change : count_used (set conns i gone) + 1 ≡ count_used conns =
        omega (arith, rw (was_used, free) at change) in
      let few = count_used-le conns in
      let total = valid.counted in
      let whole = valid.table in
      let fewer : sub64 resources.conns_total 1 + 1 ≡ resources.conns_total = omega arith in
      Yields-some _ _ _ (get_elem?-set conns i conn at) (
        rw (set-set conns i conn gone) (record {
          valid = record {
            table = length-set conns i gone ∙ valid.table;
            counted = omega arith;
            sound = All-set Sound conns i gone valid.sound sound;
            inside = valid.inside;
            trusted = valid.trusted;
            justified = (tt, valid.justified);
            owned = λ fd.
                let moved = count_held-set fd conns i old gone at in
                let was = holds_used fd old was_used in
                let none_now = holds_free fd gone free in
                let same_fd : one_if (eq_ℤ fd conn.fd) ≡ one_if (eq_ℤ fd old.fd) =
                  ap (λ x. one_if (eq_ℤ fd x)) same in
                let balance = valid.owned fd in omega arith;
          };
          fewer = fewer;
          acted = refl;
          kept = refl;
          gone = (gone, get_elem?-set conns i gone at, free);
          table = (gone, refl, free);
        }))

  pub free_conn-Freed :
      (i : ℕ) (resources : Resources ssl) (conn : Connection)
      → Valid resources
      → get_elem? resources.conns i ≡ some conn
      → is_used conn ≡ true
      → Yields (λ r. Freed i resources r conn) (free_conn ssl i resources)
  free_conn-Freed i resources conn valid at used =
      subst
        (λ conns.
          Yields (λ r. Freed i resources r conn)
            (free_conn ssl i (record resources { conns = conns })))
        (set-get_elem? resources.conns i at)
        (free_conn-set i resources conn conn valid at used used refl
          (freed-Sound conn (All-get_elem? Sound resources.conns i valid.sound at)))

pub initial-Valid :
    (ssl : OpenSsl) (P : PubKey ssl → Type 0) (keys : Keys ssl)
    → keys.keys_size ≤ length keys.keys
    → All P keys.keys
    → Valid ssl P (initial ssl keys)
unfolding initial count_used is_used closes occurrences
initial-Valid ssl P keys inside all = record {
  table = refl;
  counted = refl;
  sound = replicate-Sound max_concurrency;
  inside = inside;
  trusted = all;
  justified = tt;
  owned = λ fd. omega (arith, count_held-replicate fd max_concurrency);
}
