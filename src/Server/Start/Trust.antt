-- ===== src/Server/Start/Trust.antt =====
-- The keys that the server starts with were read by read_cert, and the array and the buffer for paths
-- are large enough.
use simple_x509_authenticate.Common.{
  ℕ, suc, ◌+◌, ◌*◌, ◌%◌, ◌^◌, ◌≤◌, ◌<◌, ◌≡◌, refl, subst, inl, inr, Bool, true, false, List, [],
  ◌∷◌, ◌++◌, Bytes, length, length-append, All, add64, leb, ltb, Bool-cases, arith,
}
use simple_x509_authenticate.Common.Result.{
  Result, ok, err, abort, Returns, Returns-mono, Yields, Yields-bind,
}
use simple_x509_authenticate.X509.Time.{Timegm}
use simple_x509_authenticate.Crypto.Ssl.{OpenSsl, Documented}
use simple_x509_authenticate.Crypto.{PubKey}
use simple_x509_authenticate.ReadCert.{Refusal, read_cert}
use simple_x509_authenticate.ReadCert.Trust.{Mapped, FromFile, read_cert-Returns}
use simple_x509_authenticate.Server.Start.Origin.{Named, Origin}
use simple_x509_authenticate.Server.Start.{
  is_dots, join_path, print_path, Startup, Loading, reserve_key, reserve_path, keep_key, read_key,
  load_entry, load_entries, no_keys,
}

All-append {ℓ κ} :
    {A : Type ℓ} (P : A → Type κ) (xs ys : List A) → All P xs → All P ys → All P (xs ++ ys)
All-append P [] ys h k = k
All-append P (x ∷ xs) ys (p, h) k = (p, All-append P xs ys h k)

-- The path, a separator and the name.
join_path-length :
    (has_sep : Bool) (path d_name : Bytes)
    → length (join_path has_sep path d_name) ≤ length path + length d_name + 1
unfolding join_path
join_path-length true path d_name = omega (arith, length-append path d_name)
join_path-length false path d_name = omega (arith, length-append path (b'/' ∷ d_name))

-- A success is what was answered.
answered_with :
    {A : Type 0} (P : A → Type 0) (m : Result Refusal A)
    → Returns P m
    → Returns (λ a. P a × (m ≡ ok a)) m
answered_with P (ok a) h = (h, refl)
answered_with P (err e) h = tt
answered_with P (abort x) h = h

module _ (ssl : OpenSsl) (timegm : Timegm) (answers : Startup ssl) where
  -- The array behind a round: `more` names are left.
  pub record Held (more : ℕ) (l : Loading ssl) : Type 0 where
    pub count : length l.keys ≡ l.keys_size
    pub inside : l.keys_size ≤ l.keys_cap
    pub some_room : 4 ≤ l.keys_cap
    pub linear : l.keys_cap ≤ 4 + l.keys_size + l.keys_size
    pub few : l.keys_size + more < 2 ^ 62
    pub loaded : All (Origin ssl answers timegm) l.keys

  keep_key-Held :
      (more : ℕ) (answer : Result Refusal (PubKey ssl)) (l : Loading ssl)
      → Held (suc more) l
      → l.keys_size < l.keys_cap
      → Returns (Origin ssl answers timegm) answer
      → Yields (Held more) (keep_key ssl answer l)
  unfolding keep_key
  keep_key-Held more (ok key) l h room from =
      let count = h.count in
      let linear = h.linear in
      let few = h.few in
      let size = length-append l.keys (key ∷ []) in
      let next : add64 l.keys_size 1 ≡ l.keys_size + 1 = omega arith in
      record {
        count = omega arith;
        inside = omega arith;
        some_room = h.some_room;
        linear = omega arith;
        few = omega arith;
        loaded = All-append (Origin ssl answers timegm) l.keys (key ∷ []) h.loaded (from, tt);
      }
  keep_key-Held more (err refusal) l h room from =
      let few = h.few in
      record {
        count = h.count;
        inside = h.inside;
        some_room = h.some_room;
        linear = h.linear;
        few = omega arith;
        loaded = h.loaded;
      }
  keep_key-Held more (abort fault) l h room from = from

  reserve_key-Held :
      (more : ℕ) (l : Loading ssl)
      → Held more l
      → Held more (reserve_key ssl l)
        × ((reserve_key ssl l).keys_size < (reserve_key ssl l).keys_cap)
  unfolding reserve_key
  reserve_key-Held more l h =
      let inside = h.inside in
      let some_room = h.some_room in
      let linear = h.linear in
      let few = h.few in
      elim (Bool-cases (leb l.keys_cap l.keys_size)) [
        | inl full ↦
            let twice : (l.keys_cap * 2) % 2 ^ 64 ≡ l.keys_cap * 2 = ground arith in
            rw (full, reserve_key)
              (
                record {
                  count = h.count;
                  inside = ground arith;
                  some_room = ground arith;
                  linear = ground arith;
                  few = h.few;
                  loaded = h.loaded;
                },
                ground arith,
              )
        | inr space ↦ rw (space, reserve_key) (h, ground arith)
      ]

  reserve_path-Held :
      (more total_size : ℕ) (l : Loading ssl)
      → Held more l
      → l.keys_size < l.keys_cap
      → Held more (reserve_path ssl total_size l)
        × ((reserve_path ssl total_size l).keys_size < (reserve_path ssl total_size l).keys_cap)
        × (total_size ≤ (reserve_path ssl total_size l).path_cap)
  unfolding reserve_path
  reserve_path-Held more total_size l h room = elim (Bool-cases (ltb l.path_cap total_size)) [
    | inl short ↦
        rw (short, reserve_path)
          (
            record {
              count = h.count;
              inside = h.inside;
              some_room = h.some_room;
              linear = h.linear;
              few = h.few;
              loaded = h.loaded;
            },
            room,
            omega arith,
          )
    | inr long ↦ rw (long, reserve_path) (h, room, ground arith)
  ]

  pub fewer_left : (more : ℕ) (l : Loading ssl) → Held (suc more) l → Held more l
  fewer_left more l h =
      let few = h.few in
      record {
        count = h.count;
        inside = h.inside;
        some_room = h.some_room;
        linear = h.linear;
        few = omega arith;
        loaded = h.loaded;
      }

  pub no_keys-Held : (more : ℕ) → more < 2 ^ 62 → Held more (no_keys ssl)
  no_keys-Held more lt = record {
    count = refl;
    inside = omega arith;
    some_room = omega arith;
    linear = omega arith;
    few = omega arith;
    loaded = tt;
  }

  module _ (doc : Documented ssl) (mapped : (path : Bytes) → Mapped (answers.file path)) where
    pub read_key-Held :
        (more : ℕ) (path : Bytes) (l : Loading ssl)
        → Held (suc more) l
        → l.keys_size < l.keys_cap
        → Named ssl answers path
        → Yields (Held more) (read_key ssl timegm answers path l)
    unfolding read_key
    read_key-Held more path l h room named =
        let space : ltb l.keys_size l.keys_cap ≡ true = ground arith in
        let now = answers.now path in
        let slot = answers.memory l.keys_size l.attempts_total in
        let answer = read_cert ssl timegm (answers.file path) now slot in
        let F = FromFile ssl timegm (answers.file path) now in
        rw (space, read_key)
          (keep_key-Held more answer l h room (
            Returns-mono (λ key. F key × (answer ≡ ok key)) (Origin ssl answers timegm) answer
              (λ key (from_file, answered). record {
                path = path;
                named = named;
                memory = slot;
                answered = answered;
                from_file = from_file;
              })
              (answered_with F answer
                (read_cert-Returns ssl timegm (answers.file path) now slot doc (mapped path)))))

    print_path-Yields :
        (room : ℕ) (text : Bytes)
        → length text < room
        → Yields (λ _. Unit {0}) (print_path room text)
    unfolding print_path
    print_path-Yields room text fits =
        let space : ltb (length text) room ≡ true = ground arith in rw (space, print_path) tt

    print_path_ok :
        (cap : ℕ) (text : Bytes) {printed : Bytes}
        → print_path cap text ≡ ok printed
        → text ≡ printed
    unfolding print_path
    print_path_ok cap text e = ground arith

    load_entry-Held :
        (more : ℕ) (path : Bytes) (has_sep : Bool) (d_name : Bytes) (l : Loading ssl)
        → length path < 2 ^ 62
        → length d_name < 2 ^ 62
        → (is_dots d_name ≡ false → Named ssl answers (join_path has_sep path d_name))
        → Held (suc more) l
        → Yields (Held more) (load_entry ssl timegm answers path has_sep d_name l)
    unfolding load_entry
    load_entry-Held more path has_sep d_name l short small origin h =
        let total = add64 (add64 (add64 (length path) 1) (length d_name)) 1 in
        let sum : total ≡ length path + length d_name + 2 = omega arith in
        let text = join_path-length has_sep path d_name in
        let (held, room) = reserve_key-Held (suc more) l h in
        let (roomy, space, fits) =
          reserve_path-Held (suc more) total (reserve_key ssl l) held room in
        elim (Bool-cases (is_dots d_name)) [
          | inl dots ↦ rw (dots, load_entry) (fewer_left more l h)
          | inr named ↦
              rw (named, load_entry)
                (Yields-bind (λ _. Unit {0}) (Held more)
                  (print_path (reserve_path ssl total (reserve_key ssl l)).path_cap
                    (join_path has_sep path d_name))
                  _ (print_path-Yields _ (join_path has_sep path d_name) (omega arith))
                  λ full_file_path printed _.
                    read_key-Held more full_file_path _
                      (record {
                        count = roomy.count;
                        inside = roomy.inside;
                        some_room = roomy.some_room;
                        linear = roomy.linear;
                        few = roomy.few;
                        loaded = roomy.loaded;
                      })
                      space (subst (Named ssl answers) (print_path_ok _ _ printed) (origin named)))
        ]

    pub load_entries-Held :
        (path : Bytes) (has_sep : Bool) (entries : List Bytes) (l : Loading ssl)
        → length path < 2 ^ 62
        → All (λ d_name. length d_name < 2 ^ 62) entries
        → All
            (λ d_name. is_dots d_name ≡ false → Named ssl answers (join_path has_sep path d_name))
            entries
        → Held (length entries) l
        → Yields (Held 0) (load_entries ssl timegm answers path has_sep entries l)
    unfolding load_entries
    load_entries-Held path has_sep [] l short small origins h = h
    load_entries-Held path has_sep (d_name ∷ entries) l short (this, small) (origin, origins) h =
        Yields-bind (Held (length entries)) (Held 0)
          (load_entry ssl timegm answers path has_sep d_name l) _
          (load_entry-Held (length entries) path has_sep d_name l short this origin h)
          λ more _ held. load_entries-Held path has_sep entries more short small origins held
