-- ===== src/Tests/Host.antt =====
-- A host whose files are a function from names to bytes, whose digests are the length of the text
-- in 32 bytes, and whose programs all exit with status 0.
use lunix.Base.{
  ℕ, zero, suc, ◌≡◌, refl, ◌%◌, ◌∷◌, [], ◌++◌, List, Bool, true, false, Option, none, some, arith,
  length, if◌then◌else◌,
}
use lunix.Base.Text.{Text, codes, text_eq, text_eq_refl}
use lunix.Stream.{stream}
use lunix.Os.{Os, FileLaws, contents}
use lunix.Security.{Console, no_user}
use lunix.Security.Digests.{Sha256Laws}
use lunix.Machine.{Host, Machine, waited, exited}

abbrev pub Files : Type 0
Files = Text → Option Text

abbrev pub put : Files → Text → Option Text → Files
put f n v k = if text_eq n k then v else f k

abbrev is_some : Option Text → Bool
is_some none = false
is_some (some t) = true

abbrev pub no_files : Files
no_files n = none

abbrev pub files_os : Os Files
files_os = record {
  exists = λ f n. is_some (f n);
  is_directory = λ f n. false;
  is_regular_file = λ f n. is_some (f n);
  current_path = λ f. codes "/rootfs";
  read = λ f n. f n;
  open_append = λ f n. some (put f n (some (contents (f n))));
  open_truncate = λ f n. some (put f n (some []));
  write = λ f n t. put f n (some (contents (f n) ++ t));
  remove = λ f n. (is_some (f n), put f n none);
  remove_all = λ f n. some (if is_some (f n) then 1 else 0, put f n none);
  create_directory = λ f n. some (true, put f n (some []));
  chdir = λ f n. (true, f);
}

put_self : (f : Files) (n : Text) (v : Option Text) → put f n v n ≡ v
put_self f n v = rw (text_eq_refl n)

pub files_laws : FileLaws files_os
files_laws = record {
  read-open_append = λ s t n h. ground (arith, text_eq_refl n);
  read-open_truncate = λ s t n h. ground (arith, text_eq_refl n);
  read-write = λ s n c t h. rw (put_self, h);
}

abbrev zeros : ℕ → List ℕ
zeros zero = []
zeros (suc n) = 0 ∷ zeros n

abbrev pub length_digest : Text → List ℕ
length_digest s = length s % 256 ∷ zeros 31

pub length_digest_laws : Sha256Laws length_digest
length_digest_laws = record { length_digest = λ s. refl; digest_bytes = λ s. omega arith }

abbrev pub files_host : Host Files
files_host = record {
  os = files_os;
  sha256 = length_digest;
  symbols = some (codes "main" ∷ []);
  geteuid = 1000;
  system = λ f c. (0, f);
  spawn = λ f args. (waited (exited 0), f);
  absolute = λ f n. codes "/" ++ n;
  what = λ f n. codes "what";
  directory_iterator = λ f n. some [];
}

-- A console before anybody has logged in.
abbrev pub console : Files → Text → Console Files
console f typed = record {
  files = f;
  input = stream typed;
  users = no_user;
  out = [];
  cout_failed = false;
  echo = true;
}

abbrev pub machine : Files → Text → Machine Files
machine f typed = record {
  console = console f typed;
  oops_count = 0;
  restart_after_panic = false;
  rootfs_absolute_path = codes "/rootfs";
  boot_runlevel = 0;
  runlevel = 0;
}
