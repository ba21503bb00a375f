-- ===== src/Tests/Security.antt =====
-- Runs of UserManager and of the hexadecimal text, and instances of their theorems.
use lunix.Base.{List, ◌≡◌, refl, ◌||◌, ◌&&◌, ◌∷◌, [], true, false, some, arith, length, All, ◌↔◌}
use lunix.Base.Decimal.{decimal}
use lunix.Base.Text.{Text, codes, text_eq}
use lunix.Stream.{stream, getline, read_word, ignore}
use lunix.Stream.Lines.{lines, IsTerminated}
use lunix.Hex.{hex_dump, IsHexDigit}
use lunix.Os.{contents}
use lunix.Security.{
  get_password, Console, password_file_exists, passwd_name, hash_password, passwd_line,
  authenticate, set_password, login, initialize, find_entry, read_entry,
}
use lunix.Security.Entries.{find_entry-lines, entries, matches}
use mathlib.Core.List.{Permᴰ}
use lunix.Security.Accounts.{
  Account, IsPlain, Represents, set_passwords, grants, no_accounts, set_passwords-Represents,
  set_passwords-Perm, no_file-Represents,
}
use lunix.Security.Digests.{hash_password-IsHexDigit}
use lunix.Security.Passwords.{authenticate-set_password, set_password_keeps}
use lunix.Security.Login.{LetsIn, ready, initialize-IsAuthenticated}
use lunix.Tests.Host.{
  Files, put, no_files, files_os, files_laws, length_digest, length_digest_laws, console,
}

hex_dump_runs : hex_dump (0 ∷ 10 ∷ 255 ∷ []) ≡ codes "000aff"
unfolding hex_dump
hex_dump_runs = refl

hash_password-IsHexDigit_example :
    (length (hash_password length_digest (codes "pw")) ≡ 64)
    × All IsHexDigit (hash_password length_digest (codes "pw"))
    × ((hash_password length_digest (codes "pw") ≡ hash_password length_digest (codes "other"))
        ↔ (length_digest (codes "pw") ≡ length_digest (codes "other")))
hash_password-IsHexDigit_example =
    hash_password-IsHexDigit length_digest length_digest_laws (codes "pw") (codes "other")

-- One user in the file, with a password of two bytes.
abbrev pub one_user : Files
one_user = put no_files passwd_name (some (passwd_line length_digest (codes "root") (codes "pw")))

abbrev two_lines : Text
two_lines = codes "root.aa\nbob\n"

find_entry-lines_example :
    find_entry 13 (stream two_lines) [] [] (codes "bob") (codes "aa")
    ≡ matches (codes "bob") (codes "aa") (entries [] (lines two_lines))
find_entry-lines_example =
    find_entry-lines 13 two_lines [] [] (codes "bob") (codes "aa") (omega arith)

-- The line of bob has no dot, and is read with the hash of the line before.
stale_hash : find_entry 13 (stream two_lines) [] [] (codes "bob") (codes "aa") ≡ true
unfolding find_entry read_entry getline
stale_hash = refl

pub one_user-IsTerminated : IsTerminated (contents (files_os.read one_user passwd_name))
unfolding hash_password hex_dump
one_user-IsTerminated = refl

root_pw : authenticate files_os length_digest one_user (codes "root") (codes "pw") ≡ true
unfolding authenticate find_entry read_entry getline hash_password hex_dump
root_pw = refl

root_wrong : authenticate files_os length_digest one_user (codes "root") (codes "pwd") ≡ false
unfolding authenticate find_entry read_entry getline hash_password hex_dump
root_wrong = refl

authenticate-set_password_example :
    authenticate files_os length_digest
      (set_password files_os length_digest one_user (codes "bob") (codes "abc"))
      (codes "bob")
      (codes "abc")
    ≡ (authenticate files_os length_digest one_user (codes "bob") (codes "abc")
        || (text_eq (codes "bob") (codes "bob")
            && text_eq
                (hash_password length_digest (codes "abc"))
                (hash_password length_digest (codes "abc"))))
authenticate-set_password_example =
    authenticate-set_password files_os files_laws length_digest length_digest_laws one_user _
      (codes "bob") (codes "abc") (codes "bob") (codes "abc") refl one_user-IsTerminated
      (omega arith) (omega arith)

-- The password of root that passwd replaces still lets root in.
set_password_keeps_example :
    authenticate files_os length_digest
      (set_password files_os length_digest one_user (codes "root") (codes "changed"))
      (codes "root")
      (codes "pw")
    ≡ true
set_password_keeps_example =
    set_password_keeps files_os files_laws length_digest one_user (codes "root") (codes "changed")
      (codes "root") (codes "pw") one_user-IsTerminated root_pw

abbrev pub typed : Text
typed = codes "root\nbad\nroot\npw\nls\n"

-- The second attempt succeeds, and the rest of the input is kept.
abbrev pub logged_in : Console Files
logged_in = record {
  files = one_user;
  input = stream (codes "ls\n");
  users = record { current_username = codes "root"; is_root_user = true };
  out =
      codes
        "Username: Password: \nInvalid username or password.\nLogin failed. Attempts remaining: 2\nUsername: Password: \n";
  cout_failed = false;
  echo = true;
}

pub second_attempt : initialize files_os length_digest (console one_user typed) ≡ (true, logged_in)
unfolding initialize password_file_exists login get_password decimal read_word ignore authenticate
    find_entry read_entry getline hash_password hex_dump
second_attempt = refl

initialize-IsAuthenticated_example :
    LetsIn files_os length_digest 3
      (ready files_os length_digest (console one_user typed))
      logged_in
initialize-IsAuthenticated_example =
    initialize-IsAuthenticated files_os length_digest (console one_user typed) logged_in
      second_attempt

end_of_input : (initialize files_os length_digest (console one_user (codes "eve\n"))).0 ≡ false
unfolding initialize password_file_exists login get_password decimal read_word ignore authenticate
    find_entry read_entry getline hash_password hex_dump
end_of_input = refl

-- Two passwords for root, one after the other.
abbrev two_calls : List Account
two_calls = (codes "root", codes "pw") ∷ (codes "root", codes "new") ∷ []

abbrev two_calls_swapped : List Account
two_calls_swapped = (codes "root", codes "new") ∷ (codes "root", codes "pw") ∷ []

two_calls-IsPlain :
    (a b : Text)
    → All
        (IsPlain files_os files_laws length_digest length_digest_laws)
        ((codes "root", a) ∷ (codes "root", b) ∷ [])
two_calls-IsPlain a b = ((omega arith, omega arith), ((omega arith, omega arith), tt))

set_passwords-Represents_example :
    Represents files_os files_laws length_digest length_digest_laws
      (set_passwords files_os files_laws length_digest length_digest_laws no_files two_calls)
      (grants files_os files_laws length_digest length_digest_laws
        (no_accounts length_digest)
        two_calls)
set_passwords-Represents_example =
    set_passwords-Represents files_os files_laws length_digest length_digest_laws (λ s. (_, refl))
      no_files (no_accounts length_digest) two_calls (two_calls-IsPlain (codes "pw") (codes "new"))
      (no_file-Represents files_os files_laws length_digest length_digest_laws no_files refl)

-- The old password of root still fits, whichever of the two was set last.
set_passwords-Perm_example :
    authenticate files_os length_digest
      (set_passwords files_os files_laws length_digest length_digest_laws no_files two_calls)
      (codes "root")
      (codes "pw")
    ≡ authenticate files_os length_digest
        (set_passwords files_os files_laws length_digest length_digest_laws no_files
          two_calls_swapped)
        (codes "root")
        (codes "pw")
set_passwords-Perm_example =
    set_passwords-Perm files_os files_laws length_digest length_digest_laws (λ s. (_, refl))
      no_files (no_accounts length_digest) two_calls two_calls_swapped (codes "root") (codes "pw")
      (two_calls-IsPlain (codes "pw") (codes "new")) (two_calls-IsPlain (codes "new") (codes "pw"))
      (no_file-Represents files_os files_laws length_digest length_digest_laws no_files refl)
      (Permᴰ.swap refl refl)
