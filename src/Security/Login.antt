-- ===== src/Security/Login.antt =====
-- UserManager::initialize and login: who is let in, and after how many attempts.
use lunix.Base.{
  ap, ℕ, zero, suc, ◌<◌, ◌≡◌, ◌↔◌, inl, inr, refl, subst, sym, ◌∙◌, if◌then◌else◌, true, false,
  List, [], ◌∷◌, ◌++◌, some, arith, Bool-cases,
}
use lunix.Base.Text.{endl, Text, codes, text_eq}
use lunix.Stream.{Stream, stream, newline, read_word, ignore}
use lunix.Stream.Lines.{Lacks, getline-line}
use lunix.Os.{Os, FileLaws}
use lunix.Security.{
  getline, warn, show, Console, passwd_name, authenticate, get_password, password_file_exists,
  create_password_file, login, login_attempts, initialize, passwd_line, is_root, get_username,
}
use lunix.Security.Digests.{Sha256Laws}
use lunix.Security.Passwords.{authenticate-line}
use lunix.Security.Accepted.{as_user, login_accepted}

-- What an attempt takes from the input: a word, and the line behind the rest of its line.
abbrev pub typed_name : Stream → Text
typed_name input = (read_word [] input).0

abbrev pub typed_password : Stream → Text
typed_password input = (getline newline [] (ignore (read_word [] input).1)).0

-- `d` is what an attempt in `c` leaves that lets in: the files accept the name and the password that
-- are typed, the user has this name, and is root exactly under root's name.
pub record IsAuthenticated {S : Type 0} (os : Os S) (sha256 : Text → List ℕ) (c d : Console S)
    : Type 0 where
  pub accepted : authenticate os sha256 d.files (typed_name c.input) (typed_password c.input) ≡ true
  pub named : get_username d.users ≡ typed_name c.input
  pub root_name : is_root d.users ≡ text_eq (typed_name c.input) (codes "root")

module _ {S : Type 0} (os : Os S) (sha256 : Text → List ℕ) where
  files-login : (c : Console S) → (login os sha256 c).1.files ≡ c.files
  unfolding login get_password
  files-login c = ground arith

  files-warn : (n : ℕ) (c : Console S) → (warn n c).files ≡ c.files
  files-warn zero c = refl
  files-warn (suc n) c = refl

  users-login_failed :
      (c : Console S) → (login os sha256 c).0 ≡ false → (login os sha256 c).1.users ≡ c.users
  unfolding login get_password
  users-login_failed c h = ground arith

  login-IsAuthenticated :
      (c : Console S)
      → (login os sha256 c).0 ≡ true
      → IsAuthenticated os sha256 c (login os sha256 c).1
  unfolding login get_password
  login-IsAuthenticated c h = record {
    accepted = ground arith;
    named = ground arith;
    root_name = ground arith;
  }

  -- `e` is the console before an attempt, of n, and all attempts before this one are refused.
  pub data Attempt : ℕ → Console S → Console S → Type 0 where
    this : {n : ℕ} {c : Console S} → Attempt (suc n) c c
    refused :
        {n : ℕ} {c e : Console S}
        → (login os sha256 c).0 ≡ false
        → Attempt n (warn n (login os sha256 c).1) e
        → Attempt (suc n) c e

  -- One of n attempts from `c` on lets in, leaves `d`, and no attempt has written to a file.
  abbrev pub LetsIn : ℕ → Console S → Console S → Type 0
  LetsIn n c d =
      (e : Console S) × Attempt n c e × IsAuthenticated os sha256 e d × (d.files ≡ c.files)

  -- The console before the attempt of each number, of so many that there are.
  abbrev pub after : ℕ → ℕ → Console S → Console S
  after zero left c = c
  after (suc n) zero c = c
  after (suc n) (suc left) c = after n left (warn left (login os sha256 c).1)

  pub login_attempts-suc :
      (n : ℕ) (c : Console S)
      → login_attempts os sha256 (suc n) c ≡ (
          if (login os sha256 c).0
          then (true, (login os sha256 c).1)
          else login_attempts os sha256 n (warn n (login os sha256 c).1))
  unfolding login_attempts
  login_attempts-suc n c = refl

  login_attempts-LetsIn :
      (n : ℕ) (c d : Console S) → login_attempts os sha256 n c ≡ (true, d) → LetsIn n c d
  login_attempts-LetsIn zero c d h = unfold login_attempts in absurd (cc (ap (λ x. x.0) h))
  login_attempts-LetsIn (suc n) c d h =
      let h' = sym (login_attempts-suc n c) ∙ h in
      elim (Bool-cases (login os sha256 c).0) [
        | inl in_ ↦
            let done = rw in_ at h' in
            subst (LetsIn (suc n) c) (ap (λ x. x.1) done)
              (c, this, login-IsAuthenticated c in_, files-login c)
        | inr out ↦
            let (e, attempt, a, f) =
              login_attempts-LetsIn n (warn n (login os sha256 c).1) d (rw out at h') in
            (e, refused out attempt, a, f ∙ files-warn n (login os sha256 c).1 ∙ files-login c)
      ]

  -- The attempts fail exactly when the login of each of them does.
  abbrev AllFail : ℕ → Console S → Type 0
  AllFail n c = (k : ℕ) → k < n → (login os sha256 (after k n c)).0 ≡ false

  all_fail :
      (n : ℕ) (c : Console S)
      → ((login_attempts os sha256 n (warn n (login os sha256 c).1)).0 ≡ false
          → AllFail n (warn n (login os sha256 c).1))
      → (login_attempts os sha256 (suc n) c).0 ≡ false
      → AllFail (suc n) c
  all_fail n c ih h zero lt = ground (arith, login_attempts-suc n c)
  all_fail n c ih h (suc k) lt = ih (ground (arith, login_attempts-suc n c)) k (omega arith)

  login_attempts-false :
      (n : ℕ) (c : Console S) → ((login_attempts os sha256 n c).0 ≡ false) ↔ AllFail n c
  login_attempts-false zero c = ((λ h k lt. elim lt [ ]), λ h. unfold login_attempts in refl)
  login_attempts-false (suc n) c = (
    all_fail n c (login_attempts-false n (warn n (login os sha256 c).1)).0,
    λ h.
        rw (login_attempts-suc n c, h 0 (omega arith))
          ((login_attempts-false n (warn n (login os sha256 c).1)).1
            (λ k lt. h (suc k) (omega arith))),
  )

  -- What initialize logs in with: the console once the password file has been seen to.
  abbrev pub ready : Console S → Console S
  ready c = if password_file_exists os c.files then c else create_password_file os sha256 c

  -- Where initialize returns, that is with `true`, one of three attempts, all those before it
  -- refused, has let in: the files accept the name and the password typed for it, the user has this
  -- name and is root exactly under the name "root"; and the attempts have written to no file.
  pub initialize-IsAuthenticated :
      (c d : Console S) → initialize os sha256 c ≡ (true, d) → LetsIn 3 (ready c) d
  unfolding initialize
  initialize-IsAuthenticated c d h = login_attempts-LetsIn 3 (ready c) d h

  -- initialize gives up and ends the process exactly when three logins in a row fail.
  pub initialize-false :
      (c : Console S)
      → ((initialize os sha256 c).0 ≡ false)
        ↔ ((k : ℕ) → k < 3 → (login os sha256 (after k 3 (ready c))).0 ≡ false)
  unfolding initialize
  initialize-false c = login_attempts-false 3 (ready c)

  -- The console that the making of the password file leaves.
  abbrev created : Console S → S → Text → Text → Console S
  created c t password more =
      record (show endl (show (codes "No password file found. Create a password for root: ") c)) {
        files = os.write t passwd_name (passwd_line sha256 (codes "root") password);
        input = stream more;
        echo = true;
      }

  ready-created :
      (c : Console S) (t : S) (password more : Text)
      → os.exists c.files passwd_name ≡ false
      → os.open_truncate c.files passwd_name ≡ some t
      → Lacks newline password
      → c.input ≡ stream (password ++ newline ∷ more)
      → ready c ≡ created c t password more
  unfolding password_file_exists create_password_file get_password
  ready-created c t password more absent opens clean typed =
      ground (arith, getline-line [] password more clean)

  module _ (laws : FileLaws os) (sha : Sha256Laws sha256) where
    pub accepted :
        (s t : S) (password : Text)
        → os.open_truncate s passwd_name ≡ some t
        → authenticate os sha256
            (os.write t passwd_name (passwd_line sha256 (codes "root") password))
            (codes "root")
            password
          ≡ true
    accepted s t password opens =
        authenticate-line os laws sha256 sha _ (codes "root") password
          (laws.read-write t passwd_name [] _ (laws.read-open_truncate s t passwd_name opens))
          (omega arith) (omega arith)

    pub initialize-created :
        (c : Console S) (t : S) (password more : Text)
        → os.exists c.files passwd_name ≡ false
        → os.open_truncate c.files passwd_name ≡ some t
        → Lacks newline password
        → c.input
          ≡ stream (password ++ newline ∷ (codes "root" ++ newline ∷ (password ++ newline ∷ more)))
        → initialize os sha256 c ≡ (
          true,
          as_user os sha256
              (created c t password (codes "root" ++ newline ∷ (password ++ newline ∷ more)))
              (codes "root")
              more,
        )
    unfolding initialize
    initialize-created c t password more absent opens clean typed =
        let after_name = codes "root" ++ newline ∷ (password ++ newline ∷ more) in
        rw (
          ready-created c t password after_name absent opens clean typed,
          login_accepted os sha256 (created c t password after_name) (codes "root") password more
              (refl, (refl, (refl, (refl, tt)))) clean refl (accepted c.files t password opens),
        )

    -- The first boot: with no password file and one that can be made, who types a password for
    -- root, then "root" and that password, is let in as root at the first attempt, and what is
    -- typed after that is still to be read.
    pub initialize-first_boot :
        (c : Console S) (t : S) (password more : Text)
        → os.exists c.files passwd_name ≡ false
        → os.open_truncate c.files passwd_name ≡ some t
        → Lacks newline password
        → c.input
          ≡ stream (password ++ newline ∷ (codes "root" ++ newline ∷ (password ++ newline ∷ more)))
        → (d : Console S) × (initialize os sha256 c ≡ (true, d))
          × (get_username d.users ≡ codes "root")
          × (is_root d.users ≡ true)
          × (d.input ≡ stream more)
    initialize-first_boot c t password more absent opens clean typed =
        (_, initialize-created c t password more absent opens clean typed, refl, refl, refl)
