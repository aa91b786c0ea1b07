-- ===== src/Server/Start.antt =====
-- The start of main_protected in src/main.c: the sockets, and the trusted keys from a file or from
-- the files of a directory.
pub mod Origin
pub mod Trust
pub mod Valid
use simple_x509_authenticate.Common.{
  ℕ, zero, suc, ◌+◌, ◌*◌, ◌%◌, ◌^◌, Bool, true, false, not, List, [], ◌∷◌, ◌++◌, Option, none, some,
  Bytes, length, get_elem?, add64, sub64, ltb, leb, ◌==◌, ◌||◌, if◌then◌else◌,
}
use simple_x509_authenticate.Common.Int.{ℤ}
use simple_x509_authenticate.Common.Result.{
  Result, ok, err, abort, Fault, ◌>>=◌, ◌>>◌, check, refuse,
}
use simple_x509_authenticate.Common.Buffer.{read, memeq, require}
use simple_x509_authenticate.X509.Time.{Timegm}
use simple_x509_authenticate.Crypto.Ssl.{OpenSsl}
use simple_x509_authenticate.Crypto.{PubKey}
use simple_x509_authenticate.ReadCert.{File, Refusal, read_cert}
use simple_x509_authenticate.Server.Scripts.{Keys}
use simple_x509_authenticate.Server.Connections.{kilobyte, Resources, initial}

-- main_protected answers -1.
pub data Exit : Type 0 where
  exit : Exit

abbrev pub Starting {ℓ} : Type ℓ → Type ℓ
Starting A = Result Exit A

-- `strcmp(d_name, ".") == 0 || strcmp(d_name, "..") == 0`
unfoldable pub is_dots : Bytes → Bool
is_dots d_name = memeq d_name (b'.' ∷ []) || memeq d_name (b'.' ∷ b'.' ∷ [])

-- What sprintf writes to full_file_path, without the 0 behind it.
unfoldable pub join_path : Bool → Bytes → Bytes → Bytes
join_path has_sep path d_name = if has_sep then path ++ d_name else path ++ b'/' ∷ d_name

-- sprintf to a buffer of `cap` bytes.
unfoldable pub print_path : ℕ → Bytes → Starting Bytes
print_path cap text = if ltb (length text) cap then ok text else abort Fault.out_of_bounds

module _ (ssl : OpenSsl) where
  -- What the system answers: the argument of the program; whether socket, bind, listen,
  -- epoll_create1 and epoll_ctl succeed; stat, with S_ISDIR of st_mode; the names that readdir
  -- answers; the calls of open, fstat and mmap for a path; time, and what the memory of the key with
  -- a given index holds in front of a call of read_cert, by the attempts before it: it was not
  -- initialised, or has what an attempt that failed, or the key that was there, left in it.
  pub record Startup : Type 0 where
    pub argument : Option Bytes
    pub opened : Bool
    pub bound : Bool
    pub heard : Bool
    pub polled : Bool
    pub watched : Bool
    pub is_dir : Option Bool
    pub entries : Option (List Bytes)
    pub file : Bytes → File
    pub now : Bytes → ℤ
    pub memory : ℕ → ℕ → PubKey ssl

  -- The keys that were read, with keys_cap, full_file_path_cap and attempts_total.
  pub record Loading : Type 0 where
    pub keys : List (PubKey ssl)
    pub keys_size : ℕ
    pub keys_cap : ℕ
    pub path_cap : ℕ
    pub attempts_total : ℕ

  -- `malloc(PubKey, 4)`
  abbrev pub no_keys : Loading
  no_keys = record {
    keys = [];
    keys_size = 0;
    keys_cap = 4;
    path_cap = kilobyte;
    attempts_total = 0;
  }

  unfoldable pub reserve_key : Loading → Loading
  reserve_key l =
      if leb l.keys_cap l.keys_size then record l { keys_cap = (l.keys_cap * 2) % 2 ^ 64 } else l

  unfoldable pub reserve_path : ℕ → Loading → Loading
  reserve_path total_size l =
      if ltb l.path_cap total_size then record l { path_cap = total_size } else l

  -- A key that read_cert wrote behind the others is kept, if it answered true.
  unfoldable pub keep_key : Result Refusal (PubKey ssl) → Loading → Starting Loading
  keep_key (ok key) l = ok (record l { keys = l.keys ++ key ∷ []; keys_size = add64 l.keys_size 1 })
  keep_key (err refusal) l = ok l
  keep_key (abort fault) l = abort fault

  module _ (timegm : Timegm) (answers : Startup) where
    -- `read_cert(path, &keys[keys_size])`
    unfoldable pub read_key : Bytes → Loading → Starting Loading
    read_key path l =
        if ltb l.keys_size l.keys_cap
        then keep_key
            (read_cert ssl timegm (answers.file path) (answers.now path)
              (answers.memory l.keys_size l.attempts_total))
            l
        else abort Fault.out_of_bounds

    -- One round of the loop over the entries of the directory.
    unfoldable pub load_entry : Bytes → Bool → Bytes → Loading → Starting Loading
    load_entry path has_sep d_name l = elim (is_dots d_name) [
      | true ↦ ok l
      | false ↦
          let total_size = add64 (add64 (add64 (length path) 1) (length d_name)) 1 in
          let roomy = reserve_path total_size (reserve_key l) in
          print_path roomy.path_cap (join_path has_sep path d_name) >>= λ full_file_path.
          read_key full_file_path (record roomy { attempts_total = add64 roomy.attempts_total 1 })
    ]

    unfoldable pub load_entries : Bytes → Bool → List Bytes → Loading → Starting Loading
    load_entries path has_sep [] l = ok l
    load_entries path has_sep (d_name ∷ entries) l =
        load_entry path has_sep d_name l >>= λ more. load_entries path has_sep entries more

    -- The given path is a directory.
    unfoldable pub load_dir : Bytes → Starting Loading
    load_dir path = do
      entries ← require answers.entries exit
      check (ltb 1 (length path))
      last ← read path (sub64 (length path) 1)
      l ← load_entries path (last == b'/') entries no_keys
      refuse (l.keys_size == 0) exit
      ok l

    -- The given path is a file.
    unfoldable pub load_file : Bytes → Starting Loading
    load_file path = do l ← read_key path no_keys; refuse (l.keys_size == 0) exit; ok l

    -- main_protected, up to the event loop.
    unfoldable pub start : Starting (Resources ssl)
    start = do
      path ← require answers.argument exit
      refuse (not answers.opened) exit
      refuse (not answers.bound) exit
      refuse (not answers.heard) exit
      refuse (not answers.polled) exit
      refuse (not answers.watched) exit
      is_dir ← require answers.is_dir exit
      l ← if is_dir then load_dir path else load_file path
      ok (initial ssl (record { keys = l.keys; keys_size = l.keys_size; script_n = 0 }))
