-- ===== src/Tests/Start.antt =====
-- The server started with a directory that holds the sample certificate, and a run of it.
use simple_x509_authenticate.Common.{
  ℕ, ◌^◌, ◌<◌, ◌≡◌, refl, ap, subst, true, [], ◌∷◌, some, get_elem?, length, All, arith,
}
use mathlib.Core.Option.{some-injective}
use simple_x509_authenticate.Common.Int.{pos}
use simple_x509_authenticate.Common.Result.{ok, Returns, Yields, check, refuse}
use simple_x509_authenticate.Common.Buffer.{read, require, memeq}
use simple_x509_authenticate.Server.Kernel.{Answers}
use simple_x509_authenticate.Server.Connections.{initial}
use simple_x509_authenticate.Server.Connections.Invariant.{Valid, Verified}
use simple_x509_authenticate.Server.Start.Origin.{Origin}
use simple_x509_authenticate.Server.Start.{
  Startup, is_dots, join_path, print_path, reserve_key, reserve_path, keep_key, read_key,
  load_entry, load_entries, load_dir, start,
}
use simple_x509_authenticate.Server.Start.Valid.{Sized, start-Valid, main-Verified}
use simple_x509_authenticate.Server.End.{free_all}
use simple_x509_authenticate.Server.End.Released.{Released, main-Released}
use simple_x509_authenticate.Server.Sessions.{Turns}
use simple_x509_authenticate.Server.Sessions.Table.{view}
use simple_x509_authenticate.Server.Sessions.Refines.{nobody, Consecutive, main-Turns, main-numbers}
use simple_x509_authenticate.Samples.{calendar}
use simple_x509_authenticate.Tests.Inputs.{agreeable, agreeable-Documented, blank}
use simple_x509_authenticate.Tests.Crypto.{certificate_file, certificate_file-Mapped}
use simple_x509_authenticate.Tests.Loaded.{certificate_key, read_cert-certificate}
use simple_x509_authenticate.Tests.Connections.{linux, linux-Allocates}
use simple_x509_authenticate.Tests.Reachable.{
  expired, late_trace, expired-Last, keys, trace, served, served-Reach, executed,
}

abbrev directory : Startup agreeable
directory = record {
  argument = some (b'/' ∷ b'k' ∷ []);
  opened = true;
  bound = true;
  heard = true;
  polled = true;
  watched = true;
  is_dir = some true;
  entries = some ((b'.' ∷ []) ∷ (b'c' ∷ []) ∷ (b'.' ∷ b'.' ∷ []) ∷ []);
  file = λ path. certificate_file;
  now = λ path. pos 1780000000;
  memory = λ i attempt. blank;
}

directory-Sized : Sized agreeable directory
directory-Sized = record {
  path = λ path e. subst (λ p. length p < 2 ^ 62) (some-injective _ _ e) (omega arith);
  two = λ path e _. subst (λ p. 1 < length p) (some-injective _ _ e) (omega arith);
  few = λ entries e. subst (λ es. length es < 2 ^ 62) (some-injective _ _ e) (omega arith);
  names = λ entries e.
      subst (All (λ d_name. length d_name < 2 ^ 62)) (some-injective _ _ e)
        (omega arith, (omega arith, (omega arith, tt)));
}

directory-start : start agreeable calendar directory ≡ ok (initial agreeable keys)
unfolding start load_dir load_entries load_entry is_dots join_path print_path reserve_key
    reserve_path keep_key read_key require refuse check read memeq
directory-start = rw read_cert-certificate refl

start-Valid_example :
    Returns
      (λ r. Valid agreeable (Origin agreeable directory calendar) r × (0 < r.keys.keys_size))
      (start agreeable calendar directory)
start-Valid_example =
    start-Valid agreeable calendar directory agreeable-Documented (λ path. certificate_file-Mapped)
      directory-Sized

main-Verified_example :
    Verified agreeable
      (Origin agreeable directory calendar)
      certificate_key
      (104 ∷ [])
      (pos 1790000000)
    × ((k : ℕ) × (a : Answers) × (get_elem? trace k ≡ some a) × (a.time ≡ pos 1790000000))
main-Verified_example =
    main-Verified agreeable calendar directory linux (initial agreeable keys) served trace
      certificate_key (104 ∷ []) (pos 1790000000) 1 1 agreeable-Documented
      (λ path. certificate_file-Mapped) directory-Sized linux-Allocates directory-start served-Reach
      (ap (λ actions. get_elem? actions 1) executed.1)

main-Turns_example :
    Turns agreeable
      (Origin agreeable directory calendar)
      linux
      (nobody agreeable)
      trace
      (view agreeable served)
main-Turns_example =
    main-Turns agreeable calendar directory linux (initial agreeable keys) served trace
      agreeable-Documented (λ path. certificate_file-Mapped) directory-Sized linux-Allocates
      directory-start served-Reach

main-numbers_example : Consecutive agreeable served.keys.script_n served.actions
main-numbers_example =
    main-numbers agreeable calendar directory linux (initial agreeable keys) served trace
      agreeable-Documented (λ path. certificate_file-Mapped) directory-Sized linux-Allocates
      directory-start served-Reach

main-Released_example :
    Yields (Released agreeable (pos 5) (pos 4) expired) (free_all agreeable (pos 5) (pos 4) expired)
main-Released_example =
    main-Released agreeable calendar directory linux (initial agreeable keys) expired late_trace
      (pos 5) (pos 4) agreeable-Documented (λ path. certificate_file-Mapped) directory-Sized
      linux-Allocates directory-start expired-Last
