-- ===== src/Server/Start/Origin.antt =====
-- Where the keys of the server come from.
use simple_x509_authenticate.Common.{
  ℕ, ◌-◌, ◌≡◌, ◌⊎◌, true, false, List, ◌∷◌, ◌++◌, some, Bytes, length, get_elem?, ◌==◌, arith,
  if◌then◌else◌,
}
use simple_x509_authenticate.X509.Time.{Timegm}
use simple_x509_authenticate.Crypto.Ssl.{OpenSsl}
use simple_x509_authenticate.Crypto.{PubKey}
use simple_x509_authenticate.Crypto.Keys.{Chosen}
use simple_x509_authenticate.ReadCert.{read_cert}
use simple_x509_authenticate.ReadCert.Trust.{FromFile}
use simple_x509_authenticate.Common.Result.{ok}
use simple_x509_authenticate.Server.Scripts.Authentic.{Usable}
use simple_x509_authenticate.Server.Start.{is_dots, Startup}

module _ (ssl : OpenSsl) (answers : Startup ssl) where
  -- An entry of the directory that the program was given: neither `.` nor `..`, with a separator in
  -- front of it where the directory does not end with one.
  pub record InDirectory (path : Bytes) : Type 0 where
    pub dir : Bytes
    pub entries : List Bytes
    pub k : ℕ
    pub name : Bytes
    pub last : ℕ
    pub given : answers.argument ≡ some dir
    pub mode : answers.is_dir ≡ some true
    pub listed : answers.entries ≡ some entries
    pub entry : get_elem? entries k ≡ some name
    pub proper : is_dots name ≡ false
    pub ends : get_elem? dir (length dir - 1) ≡ some last
    pub joined : path ≡ (if last == b'/' then dir ++ name else dir ++ b'/' ∷ name)

  -- The path that the program was given, of a file, or one of the files of the directory that it was
  -- given.
  abbrev pub Named : Bytes → Type 0
  Named path = ((answers.argument ≡ some path) × (answers.is_dir ≡ some false)) ⊎ InDirectory path

  -- read_cert answered the key, for what the system answered for this path at the start.
  pub record Origin (timegm : Timegm) (key : PubKey ssl) : Type 0 where
    pub path : Bytes
    pub named : Named path
    pub memory : PubKey ssl
    pub answered : read_cert ssl timegm (answers.file path) (answers.now path) memory ≡ ok key
    pub from_file : FromFile ssl timegm (answers.file path) (answers.now path) key

  pub Origin-Usable : (timegm : Timegm) (key : PubKey ssl) → Origin timegm key → Usable ssl key
  unfolding Chosen
  Origin-Usable timegm key origin =
      let f = origin.from_file in
      let t = f.trusted in
      let b = f.bounds in
      let size = t.sig_size in
      let addressed = f.addressed in
      record {
        small = ground arith;
        oid = _;
        chosen = (t.algorithm, t.chosen, t.named, (t.context, t.held));
      }
