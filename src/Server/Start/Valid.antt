-- ===== src/Server/Start/Valid.antt =====
-- Where the start of main_protected succeeds, the server has at least one key that read_cert
-- answered, and its state is valid; what it executes from then on is signed by such keys.
use simple_x509_authenticate.Common.{
  ℕ, suc, ◌-◌, inl, inr, [], ◌∷◌, ◌^◌, ◌<◌, ◌≡◌, refl, ap, Bool, true, false, List, some, Bytes,
  length, All, get_elem?, sub64, ltb, ◌==◌, arith, if◌then◌else◌,
}
use simple_x509_authenticate.Common.Int.{ℤ}
use simple_x509_authenticate.Common.Result.{
  ok, Returns, Returns-bind, Returns-mono, Returns_ok, Yields-Returns,
}
use simple_x509_authenticate.Common.Buffer.{
  Returns-require, Returns-check, Returns-refuse, Returns-read,
}
use simple_x509_authenticate.X509.Time.{Timegm}
use simple_x509_authenticate.Crypto.Ssl.{OpenSsl, Documented}
use simple_x509_authenticate.Crypto.{PubKey}
use simple_x509_authenticate.ReadCert.Trust.{Mapped}
use simple_x509_authenticate.Server.Kernel.{Kernel, Answers, Allocates}
use simple_x509_authenticate.Server.Scripts.{Keys}
use simple_x509_authenticate.Server.Start.Origin.{Named, Origin, Origin-Usable}
use simple_x509_authenticate.Server.Connections.{Resources, call_exec_script, initial}
use simple_x509_authenticate.Server.Connections.Invariant.{Valid, Verified, initial-Valid}
use simple_x509_authenticate.Server.Events.Reachable.{Reach, Reach-Verified}
use simple_x509_authenticate.Server.Start.{
  is_dots, join_path, Startup, Loading, no_keys, read_key, load_entries, load_dir, load_file, start,
}
use simple_x509_authenticate.Server.Start.Trust.{
  Held, no_keys-Held, read_key-Held, load_entries-Held,
}

-- The path and the names of a directory lie in memory, and the path of a directory has at least two
-- bytes.
pub record Sized (ssl : OpenSsl) (answers : Startup ssl) : Type 0 where
  pub path : (path : Bytes) → answers.argument ≡ some path → length path < 2 ^ 62
  pub two :
      (path : Bytes) → answers.argument ≡ some path → answers.is_dir ≡ some true → 1 < length path
  pub few : (entries : List Bytes) → answers.entries ≡ some entries → length entries < 2 ^ 62
  pub names :
      (entries : List Bytes)
      → answers.entries ≡ some entries
      → All (λ d_name. length d_name < 2 ^ 62) entries

All-of_elems :
    {P : Bytes → Type 0} (xs : List Bytes)
    → ((k : ℕ) (x : Bytes) → get_elem? xs k ≡ some x → P x)
    → All P xs
All-of_elems [] h = tt
All-of_elems (x ∷ xs) h = (h 0 x refl, All-of_elems xs (λ k y. h (suc k) y))

module _ (ssl : OpenSsl) (timegm : Timegm) (answers : Startup ssl) (doc : Documented ssl)
    (mapped : (path : Bytes) → Mapped (answers.file path)) where
  -- The keys that were loaded: at least one.
  LoadedKeys : Loading ssl → Type 0
  LoadedKeys l = Held ssl timegm answers 0 l × (0 < l.keys_size)

  load_file-Returns :
      (path : Bytes)
      → answers.argument ≡ some path
      → answers.is_dir ≡ some false
      → Returns LoadedKeys (load_file ssl timegm answers path)
  unfolding load_file LoadedKeys
  load_file-Returns path given mode =
      Returns-bind (Held ssl timegm answers 0) LoadedKeys
        (read_key ssl timegm answers path (no_keys ssl)) _
        (Yields-Returns (Held ssl timegm answers 0) _ _ (λ l h. h)
          (read_key-Held ssl timegm answers doc mapped 0 path (no_keys ssl)
            (no_keys-Held ssl timegm answers 1 (omega arith)) (omega arith) (inl (given, mode))))
        λ l _ held.
          Returns-refuse LoadedKeys (l.keys_size == 0) _ _ λ some_key. (held, ground arith)

  entries-Named :
      (dir : Bytes) (entries : List Bytes) (last : ℕ)
      → answers.argument ≡ some dir
      → answers.is_dir ≡ some true
      → answers.entries ≡ some entries
      → get_elem? dir (length dir - 1) ≡ some last
      → All
          (λ name. is_dots name ≡ false → Named ssl answers (join_path (last == b'/') dir name))
          entries
  unfolding join_path
  entries-Named dir entries last given mode listed ends =
      All-of_elems entries λ k name entry proper. inr (record {
        dir = dir;
        entries = entries;
        k = k;
        name = name;
        last = last;
        given = given;
        mode = mode;
        listed = listed;
        entry = entry;
        proper = proper;
        ends = ends;
        joined = refl;
      })

  load_dir-Returns :
      (path : Bytes)
      → answers.argument ≡ some path
      → answers.is_dir ≡ some true
      → length path < 2 ^ 62
      → 1 < length path
      → ((entries : List Bytes) → answers.entries ≡ some entries → length entries < 2 ^ 62)
      → ((entries : List Bytes)
          → answers.entries ≡ some entries
          → All (λ d_name. length d_name < 2 ^ 62) entries)
      → Returns LoadedKeys (load_dir ssl timegm answers path)
  unfolding load_dir LoadedKeys
  load_dir-Returns path given mode short two few names =
      Returns-require LoadedKeys _ _ _ λ entries e.
        Returns-check LoadedKeys (ltb 1 (length path)) _ (ground arith) (
          Returns-read LoadedKeys path (sub64 (length path) 1) _ (omega arith) λ last at_last.
            let final : sub64 (length path) 1 ≡ length path - 1 = omega arith in
            let at_end = rw final at at_last in
            Returns-bind (Held ssl timegm answers 0) LoadedKeys
              (load_entries ssl timegm answers path (last == b'/') entries (no_keys ssl)) _
              (Yields-Returns (Held ssl timegm answers 0) _ _ (λ l h. h)
                (load_entries-Held ssl timegm answers doc mapped path (last == b'/') entries
                  (no_keys ssl) short (names entries e)
                  (entries-Named path entries last given mode e at_end)
                  (no_keys-Held ssl timegm answers (length entries) (few entries e))))
              λ l _ held.
                Returns-refuse LoadedKeys (l.keys_size == 0) _ _ λ some_key. (held, ground arith))

  -- A server with keys.
  Started : Resources ssl → Type 0
  Started r =
      (l : Loading ssl) × LoadedKeys l
      × (r ≡ initial ssl (record { keys = l.keys; keys_size = l.keys_size; script_n = 0 }))

  start-Started : Sized ssl answers → Returns Started (start ssl timegm answers)
  unfolding start Started
  start-Started sized =
      let S = Started in
      Returns-require S _ _ _ λ path given. Returns-refuse S _ _ _ λ _. Returns-refuse S _ _ _ λ _.
        Returns-refuse S _ _ _ λ _. Returns-refuse S _ _ _ λ _. Returns-refuse S _ _ _ λ _.
          Returns-require S _ _ _ λ is_dir mode.
            Returns-bind LoadedKeys S
              (if is_dir
                then load_dir ssl timegm answers path
                else load_file ssl timegm answers path)
              _ (by_mode path is_dir given mode) λ l _ keys. (l, keys, refl)
    where
      by_mode :
          (path : Bytes) (is_dir : Bool)
          → answers.argument ≡ some path
          → answers.is_dir ≡ some is_dir
          → Returns LoadedKeys (
              if is_dir
              then load_dir ssl timegm answers path
              else load_file ssl timegm answers path)
      by_mode path true given mode =
          load_dir-Returns path given mode (sized.path path given) (sized.two path given mode)
            sized.few sized.names
      by_mode path false given mode = load_file-Returns path given mode

  pub start-initial :
      Sized ssl answers
      → {first : Resources ssl} → start ssl timegm answers ≡ ok first
      → (keys : Keys ssl) × (keys.script_n ≡ 0) × (first ≡ initial ssl keys)
  unfolding Started
  start-initial sized e =
      let (l, held, same) = Returns_ok Started _ (start-Started sized) e in
      (record { keys = l.keys; keys_size = l.keys_size; script_n = 0 }, refl, same)

-- Where OpenSSL and mmap behave as documented, the path and the names are below 2 ^ 62 bytes, with
-- fewer than 2 ^ 62 names, and a path of a directory has at least two bytes, the start of the
-- server fails no assert and writes no byte outside of the array of the keys or the buffer for
-- paths. If it succeeds, the server has at least one key; every key is what read_cert answered for
-- the file, and at the time, that the system answered for the path that the program was given or
-- for one of the entries of this directory; and the state is valid.
pub start-Valid :
    (ssl : OpenSsl) (timegm : Timegm) (answers : Startup ssl)
    → Documented ssl
    → ((path : Bytes) → Mapped (answers.file path))
    → Sized ssl answers
    → Returns
        (λ r. Valid ssl (Origin ssl answers timegm) r × (0 < r.keys.keys_size))
        (start ssl timegm answers)
unfolding Started LoadedKeys initial
start-Valid ssl timegm answers doc mapped sized =
    Returns-mono (Started ssl timegm answers doc mapped) _ _
      (λ r (l, (held, some_key), e).
        let keys : Keys ssl = record { keys = l.keys; keys_size = l.keys_size; script_n = 0 } in
        let count = held.count in
        rw e
          (initial-Valid ssl (Origin ssl answers timegm) keys (omega arith) held.loaded, some_key))
      (start-Started ssl timegm answers doc mapped sized)

-- Where OpenSSL and mmap behave as documented, and the start of the server succeeds, with a path
-- and names below 2 ^ 62 bytes, fewer than 2 ^ 62 names, and a path of at least two bytes if it is
-- one of a directory, then whatever events epoll answers for the listening socket and the
-- connections in use, whatever is received, and whatever else the calls of the system answer as
-- they are documented (recv writes no more than it has room for, accept does not answer 0, clock
-- stays below its largest value, malloc answers what was asked for) while epoll_ctl succeeds, every
-- script that is executed has fewer than 2 ^ 31 bytes, as exec_script needs, and a signature of it
-- was verified by a key that had not expired at the time `now` of the call, which is what
-- time(NULL) answered while one of these events was handled; and this key is what read_cert
-- answered at the start, for the file, and at the time, that the system then answered for the path
-- that the program was given or for one of the entries of this directory.
pub main-Verified :
    (ssl : OpenSsl) (timegm : Timegm) (answers : Startup ssl) (kernel : Kernel)
    (first state : Resources ssl) (trace : List Answers) (key : PubKey ssl) (script : Bytes)
    (now : ℤ) (i n : ℕ)
    → Documented ssl
    → ((path : Bytes) → Mapped (answers.file path))
    → Sized ssl answers
    → Allocates kernel
    → start ssl timegm answers ≡ ok first
    → Reach ssl kernel first trace state
    → get_elem? state.actions i ≡ some (call_exec_script key script n now)
    → Verified ssl (Origin ssl answers timegm) key script now
      × ((k : ℕ) × (a : Answers) × (get_elem? trace k ≡ some a) × (a.time ≡ now))
unfolding initial
main-Verified ssl timegm answers kernel first state trace key script now i n doc mapped sized
      allocates started reach at =
    let O = Origin ssl answers timegm in
    let (valid, some_key) =
      Returns_ok (λ r. Valid ssl O r × (0 < r.keys.keys_size)) _
        (start-Valid ssl timegm answers doc mapped sized) started in
    let (keys, number, e) = start-initial ssl timegm answers doc mapped sized started in
    Reach-Verified ssl O (Origin-Usable ssl answers timegm) kernel allocates key script now i n
      valid (ap (λ (r : Resources ssl). r.actions) e) reach at
