-- ===== src/Server/Events/Runs.antt =====
-- The running of a script, and the closing of its connection, keep the state of the server valid, and are moves of its
-- sessions.
use simple_x509_authenticate.Common.{
  ℕ, Bytes, length, length-append, ap, ◌∙◌, ◌∷◌, ◌++◌, All-get_elem?, ◌<◌, ◌≡◌, refl, true, some,
  get_elem?, arith,
}
use simple_x509_authenticate.Common.Result.{ok, err, abort, Returns, Ends, Ends-bind}
use simple_x509_authenticate.Crypto.Ssl.{OpenSsl}
use simple_x509_authenticate.Crypto.{Extract, PubKey}
use simple_x509_authenticate.Server.Scripts.{
  frame, Keys, Outcome, executed, unauthentic, all_expired, authenticate,
}
use simple_x509_authenticate.Server.Scripts.Authentic.{Usable, Accepted, Good, authenticate-Good}
use simple_x509_authenticate.Server.Scripts.Codeless.{Codeless, authenticate-Codeless}
use simple_x509_authenticate.Server.Scripts.Number.{Numbered, authenticate-Numbered}
use simple_x509_authenticate.Server.Kernel.{Kernel, Answers}
use simple_x509_authenticate.Server.Connections.{
  close_fd, call_exec_script, max_script_size, Connection, Resources, is_used, contents, free_conn,
}
use simple_x509_authenticate.Server.Connections.Owned.{closes}
use simple_x509_authenticate.Server.Connections.Invariant.{Valid, Freed, free_conn-Freed}
use simple_x509_authenticate.Server.Connections.Sound.{Sound, contents-length}
use simple_x509_authenticate.Server.Sessions.{execute}
use simple_x509_authenticate.Server.Sessions.Table.{
  session_of, opened, except, opened_used, opened-set_free,
}
use simple_x509_authenticate.Server.Sessions.Moved.{
  Spec-ext, moved_once, closed-Move, Freed-Move, Stepped,
}
use simple_x509_authenticate.Server.Events.Going.{going-Ends}
use simple_x509_authenticate.Server.Events.{settled, going, finish_conn, run_script}

settled-Ends :
    {E A : Type 0} (Q : E → Type 0) (P : A → Type 0) (m : Extract A)
    → Returns P m
    → Codeless m
    → Ends Q P (settled m)
unfolding settled Codeless
settled-Ends Q P (ok a) h k = h
settled-Ends Q P (err code) h k = k
settled-Ends Q P (abort x) h k = h

settled_ok : {E A : Type 0} (m : Extract A) {a : A} → settled {E = E} m ≡ ok a → m ≡ ok a
unfolding settled
settled_ok (ok a) h = cc
settled_ok (err code) h = cc
settled_ok (abort x) h = cc

module _ (ssl : OpenSsl) (P : PubKey ssl → Type 0)
    (usable : (key : PubKey ssl) → P key → Usable ssl key) (kernel : Kernel)
    (answers : Answers) where
  -- The script is a part of what was received.
  framed-length :
      (buf sig script : Bytes)
      → buf ≡ frame sig script
      → length buf < max_script_size
      → length script < max_script_size
  unfolding frame
  framed-length buf sig script framed small =
      let joined = length-append sig (b'\n' ∷ script) in
      let size : length buf ≡ length (sig ++ b'\n' ∷ script) = ap length framed in omega arith

  pub free_conn-Stepped :
      (i : ℕ) (resources : Resources ssl) (conn : Connection)
      → Valid ssl P resources
      → get_elem? resources.conns i ≡ some conn
      → is_used conn ≡ true
      → Ends
          (Valid ssl P)
          (Stepped ssl P kernel answers resources)
          (going (free_conn ssl i resources))
  free_conn-Stepped i resources conn valid at used =
      going-Ends (Valid ssl P) (λ r. Freed ssl P i resources r conn)
        (Stepped ssl P kernel answers resources) _
        (λ r freed. record {
          valid = freed.valid;
          moves =
              moved_once ssl P kernel answers
                (Freed-Move ssl P kernel answers i resources r conn at used freed);
        })
        (free_conn-Freed ssl P i resources conn valid at used)

  finish_conn-Stepped :
      (i : ℕ) (resources : Resources ssl) (conn : Connection) (outcome : Outcome ssl)
      (keys : Keys ssl)
      → Valid ssl P resources
      → get_elem? resources.conns i ≡ some conn
      → is_used conn ≡ true
      → Good ssl P usable answers.time (contents conn) resources.keys.keys_size (outcome, keys)
      → Numbered ssl resources.keys.script_n outcome keys
      → Ends
          (Valid ssl P)
          (Stepped ssl P kernel answers resources)
          (finish_conn ssl answers.time i outcome keys resources)
  unfolding finish_conn Good Accepted closes session_of
  finish_conn-Stepped i resources conn (executed key script) keys valid at used
        ((p, fresh, signed), all, inside) number =
      let call = λ (n : ℕ). call_exec_script key script n answers.time in
      let ran = record resources {
        keys = keys;
        actions = call keys.script_n ∷ resources.actions;
      } in
      let kept : Valid ssl P ran = record {
        table = valid.table;
        counted = valid.counted;
        sound = valid.sound;
        inside = inside;
        trusted = all;
        justified = (
          record {
            trusted = p;
            sig = signed.sig;
            size = signed.size;
            verified = signed.verified;
            valid = fresh;
            small =
                framed-length (contents conn) signed.sig script signed.framed
                  (contents-length conn (All-get_elem? Sound resources.conns i valid.sound at));
          },
          valid.justified,
        );
        owned = valid.owned;
      } in
      going-Ends (Valid ssl P) (λ r. Freed ssl P i ran r conn)
        (Stepped ssl P kernel answers resources) _
        (λ r freed. record {
          valid = freed.valid;
          moves = moved_once ssl P kernel answers (
              execute (session_of conn) (opened (except i resources.conns)) key signed.sig script
                (opened_used resources.conns i conn at used) signed.framed signed.size
                signed.verified p fresh
                (Spec-ext ssl _ _
                  (ap opened freed.table.1
                    ∙ opened-set_free resources.conns i conn freed.table.0 at freed.table.2)
                  (ap (λ ks. ks.script_n) freed.kept ∙ number)
                  (freed.acted ∙ ap (λ n. close_fd conn.fd ∷ call n ∷ resources.actions) number)));
        })
        (free_conn-Freed ssl P i ran conn kept at used)
  finish_conn-Stepped i resources conn unauthentic keys valid at used (_, all, inside) number =
      let turned = record resources { keys = keys } in
      let kept : Valid ssl P turned = record {
        table = valid.table;
        counted = valid.counted;
        sound = valid.sound;
        inside = inside;
        trusted = all;
        justified = valid.justified;
        owned = valid.owned;
      } in
      going-Ends (Valid ssl P) (λ r. Freed ssl P i turned r conn)
        (Stepped ssl P kernel answers resources) _
        (λ r freed. record {
          valid = freed.valid;
          moves = moved_once ssl P kernel answers (
              closed-Move ssl P kernel answers i resources r conn freed.table.0 at used
                freed.table.1 freed.table.2 (ap (λ ks. ks.script_n) freed.kept ∙ number)
                freed.acted);
        })
        (free_conn-Freed ssl P i turned conn kept at used)
  finish_conn-Stepped i resources conn all_expired keys valid at used (_, all, inside) number =
      record {
        table = valid.table;
        counted = valid.counted;
        sound = valid.sound;
        inside = inside;
        trusted = all;
        justified = valid.justified;
        owned = valid.owned;
      }

  pub run_script-Stepped :
      (i : ℕ) (resources : Resources ssl) (conn : Connection)
      → Valid ssl P resources
      → get_elem? resources.conns i ≡ some conn
      → is_used conn ≡ true
      → Ends
          (Valid ssl P)
          (Stepped ssl P kernel answers resources)
          (run_script ssl answers.time i conn resources)
  unfolding run_script
  run_script-Stepped i resources conn valid at used =
      let G = Good ssl P usable answers.time (contents conn) resources.keys.keys_size in
      let answer = authenticate ssl answers.time (contents conn) resources.keys in
      Ends-bind (Valid ssl P) G (Stepped ssl P kernel answers resources) (settled answer) _
        (settled-Ends (Valid ssl P) G _
          (authenticate-Good ssl P usable answers.time (contents conn) resources.keys.keys_size
            resources.keys refl valid.inside valid.trusted)
          (authenticate-Codeless ssl answers.time (contents conn) resources.keys))
        λ r e good. finish_conn-Stepped i resources conn r.0 r.1 valid at used good (
          authenticate-Numbered ssl answers.time (contents conn) resources.keys
            (settled_ok answer e))
