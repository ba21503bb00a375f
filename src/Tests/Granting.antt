-- ===== src/Tests/Granting.antt =====
-- Sessions in which root makes an account, boots for the first time, or is somebody else, as
-- instances of the theorems about such sessions.
use lunix.Base.{ap, sym, true, inr, ◌≡◌, refl, List, [], ◌∷◌, ◌++◌, some, arith}
use lunix.Base.Text.{codes}
use lunix.Stream.{stream, getline}
use lunix.Security.{authenticate, find_entry, read_entry, hash_password, set_password}
use lunix.Hex.{hex_dump}
use lunix.Security.Accounts.{
  Account, Accounts, Represents, grant, grants, no_accounts, no_file-Represents,
  set_passwords-Represents,
}
use lunix.Machine.{Machine, exits}
use lunix.Disk.{append_path}
use lunix.Disk.There.{IsThere}
use lunix.Lsh.Script.{InShell, commands, lsh_loop-commands}
use lunix.Security.Accepted.{user_named}
use lunix.Kernel.NextBoot.{main-next}
use lunix.Kernel.Clean.{CanLogIn, logged, session, main-login}
use lunix.Disk.Fresh.{IsFresh}
use lunix.Kernel.FirstBoot.{registered, main-first_boot}
use lunix.Security.Refused.{logins}
use lunix.Kernel.LockedOut.{IsClosed, IsOut, main-IsOut}
use lunix.Kernel.Granting.{main-Represents}
use lunix.Kernel.Start.{main}
use lunix.Tests.Host.{
  Files, put, no_files, files_os, files_laws, length_digest, length_digest_laws, files_host,
  machine,
}
use lunix.Tests.Lsh.{no_net}

-- The root file system with its modules, and nobody who can log in.
abbrev empty_home : Files
empty_home = put (put no_files (codes "/rootfs") (some [])) (codes "/rootfs/modules") (some [])

abbrev root_account : Account
root_account = (codes "root", codes "pw")

abbrev home : Files
home = set_password files_os length_digest empty_home (codes "root") (codes "pw")

abbrev one_account : Accounts length_digest
one_account =
    grants files_os files_laws length_digest length_digest_laws (no_accounts length_digest)
      (root_account ∷ [])

home-Represents : Represents files_os files_laws length_digest length_digest_laws home one_account
home-Represents =
    set_passwords-Represents files_os files_laws length_digest length_digest_laws (λ s. (_, refl))
      empty_home (no_accounts length_digest) (root_account ∷ []) ((omega arith, omega arith), tt)
      (no_file-Represents files_os files_laws length_digest length_digest_laws empty_home refl)

abbrev bob : List Account
bob = (codes "bob", codes "abc") ∷ []

abbrev granting : Machine Files
granting =
    machine home
      (logged (codes "root") (codes "pw") (commands bob (codes "exit" ++ 10 ∷ codes "rest")))

home-IsThere : IsThere files_host home
unfolding set_password append_path
home-IsThere = record { there = refl; entered = refl; modules = refl; entries = []; listed = refl }

home-CanLogIn : CanLogIn files_host (codes "root") (codes "pw") home
unfolding set_password authenticate find_entry read_entry hash_password hex_dump getline
home-CanLogIn = record {
  there = refl;
  word = (refl, (refl, (refl, (refl, tt))));
  clean = omega arith;
  accepted = refl;
}

main-Represents_example :
    (n : Machine Files) × (main files_host no_net 2 granting ≡ exits 0 n)
    × (n.boot_runlevel ≡ 0)
    × (n.input ≡ stream (codes "rest"))
    × Represents files_os files_laws length_digest length_digest_laws n.files
        (grants files_os files_laws length_digest length_digest_laws one_account bob)
main-Represents_example =
    main-Represents files_host files_laws length_digest_laws (λ s. (_, refl)) no_net 1 (codes "pw")
      (codes "exit") (codes "rest") bob one_account granting refl home-IsThere home-CanLogIn
      home-Represents ((((refl, (refl, (refl, tt))), (refl, (refl, (refl, tt)))), omega arith), tt)
      (inr refl) (omega arith) refl

-- A first boot, on no files at all.
abbrev blank : Machine Files
blank =
    machine no_files (codes "y" ++ 10 ∷ registered (codes "pw") (codes "exit" ++ 10 ∷ codes "rest"))

abbrev blank-IsFresh : IsFresh files_host blank.files
blank-IsFresh = record {
  made = _;
  installed = _;
  missing = refl;
  makes = refl;
  entered = refl;
  no_modules = unfold append_path in refl;
  makes_modules = refl;
}

main-first_boot_example :
    (n : Machine Files) × (main files_host no_net 1 blank ≡ exits 0 n)
    × (n.boot_runlevel ≡ 0)
    × (n.input ≡ stream (codes "rest"))
    × Represents files_os files_laws length_digest length_digest_laws n.files
        (grant length_digest root_account (no_accounts length_digest))
main-first_boot_example =
    main-first_boot files_host no_net files_laws length_digest_laws 0 (codes "pw") (codes "exit")
      (codes "rest") _ blank blank-IsFresh refl (unfold append_path in refl) refl (omega arith)
      (inr refl) refl

-- Three logins that the password file of root refuses.
abbrev stranger : Machine Files
stranger = machine home (
    logins ((codes "eve", codes "pw") ∷ (codes "root", codes "") ∷ (codes "root", codes "pwd") ∷ [])
      (codes "rest"))

home-IsClosed :
    IsClosed files_host
      (codes "eve", codes "pw")
      (codes "root", codes "")
      (codes "root", codes "pwd")
      home
unfolding set_password authenticate find_entry read_entry hash_password hex_dump getline
home-IsClosed = record {
  there = refl;
  refused = (
    record { word = (refl, (refl, (refl, tt))); clean = omega arith; refused = refl },
    (
      record { word = (refl, (refl, (refl, (refl, tt)))); clean = tt; refused = refl },
      (
        record { word = (refl, (refl, (refl, (refl, tt)))); clean = omega arith; refused = refl },
        tt,
      ),
    ),
  );
}

main-IsOut_example :
    (n : Machine Files) × (main files_host no_net 1 stranger ≡ exits 1 n)
    × IsOut home (codes "rest") n
main-IsOut_example =
    main-IsOut files_host no_net (codes "eve", codes "pw") (codes "root", codes "")
      (codes "root", codes "pwd") (codes "rest") 0 stranger refl home-IsThere home-IsClosed refl

-- The files behind the session of root above, in which bob is made.
abbrev with_bob : Files
with_bob = set_password files_os length_digest home (codes "bob") (codes "abc")

session_of_root :
    (n : Machine Files) × (main files_host no_net 2 granting ≡ exits 0 n)
    × (n.boot_runlevel ≡ 0)
    × InShell (user_named (codes "root")) with_bob (codes "rest") n
session_of_root =
    main-login files_host no_net (codes "root") (codes "pw") 1 _ (codes "rest") with_bob granting
      refl home-IsThere home-CanLogIn
      (λ root n h.
        lsh_loop-commands files_host no_net (codes "exit") (codes "rest") (inr refl) files_laws
          length_digest_laws bob 2 root (user_named (codes "root")) home n refl
          (((refl, (refl, (refl, tt))), (refl, (refl, (refl, tt)))), tt) (omega arith) h)
      refl

-- bob, at the next boot.
abbrev bob_boots : Machine Files
bob_boots = machine with_bob (session (codes "bob") (codes "abc") (codes "exit") (codes "more"))

with_bob-IsThere : IsThere files_host with_bob
unfolding set_password append_path
with_bob-IsThere = record {
  there = refl;
  entered = refl;
  modules = refl;
  entries = [];
  listed = refl;
}

with_bob-exists : files_os.exists with_bob (codes ".passwd") ≡ true
unfolding set_password
with_bob-exists = refl

main-next_example :
    (o : Machine Files) × (main files_host no_net 2 bob_boots ≡ exits 0 o)
    × (o.boot_runlevel ≡ 0)
    × InShell (user_named (codes "bob")) with_bob (codes "more") o
main-next_example =
    main-next files_host files_laws length_digest_laws (λ s. (_, refl)) no_net 1 (codes "pw")
      (codes "exit") (codes "rest") [] [] (codes "bob") (codes "abc") (codes "exit") (codes "more")
      one_account granting session_of_root.0 bob_boots refl home-IsThere home-CanLogIn
      home-Represents ((((refl, (refl, (refl, tt))), (refl, (refl, (refl, tt)))), omega arith), tt)
      (inr refl) (omega arith) refl session_of_root.1 with_bob-IsThere with_bob-exists
      (ap (λ (f : Files). f (codes ".passwd")) (sym session_of_root.3.files)) (inr refl) refl
