-- ===== src/Security/Refused.antt =====
-- UserManager::initialize for somebody whom the files do not accept.
use lunix.Base.{
  All, length, subst, sym, ℕ, zero, suc, ◌≡◌, refl, ◌∙◌, true, false, List, [], ◌∷◌, ◌++◌,
}
use lunix.Base.Text.{Text}
use lunix.Stream.{stream, newline, ignore}
use lunix.Stream.Lines.{Lacks, getline-line}
use lunix.Stream.Words.{IsWord, read_word-space}
use lunix.Os.{Os}
use lunix.Security.{
  Console, warn, passwd_name, authenticate, get_password, login, login_attempts, initialize,
  password_file_exists,
}
use lunix.Security.Accounts.{Account}
use lunix.Security.Login.{login_attempts-suc}

-- Logins, one after the other, and what is typed behind them.
abbrev pub logins : List Account → Text → Text
logins [] rest = rest
logins ((user, password) ∷ tries) rest = user ++ newline ∷ (password ++ newline ∷ logins tries rest)

-- The files, the user and what is left to be read, of a console.
pub record Stays {S : Type 0} (c : Console S) (rest : Text) (d : Console S) : Type 0 where
  pub files : d.files ≡ c.files
  pub users : d.users ≡ c.users
  pub left : d.input ≡ stream rest

module _ {S : Type 0} (os : Os S) (sha256 : Text → List ℕ) where
  -- A login that can be typed, and that these files refuse.
  pub record IsRefused (s : S) (try_ : Account) : Type 0 where
    pub word : IsWord try_.0
    pub clean : Lacks newline try_.1
    pub refused : authenticate os sha256 s try_.0 try_.1 ≡ false

  login_refused :
      (c : Console S) (user password rest : Text)
      → IsRefused c.files (user, password)
      → c.input ≡ stream (user ++ newline ∷ (password ++ newline ∷ rest))
      → ((login os sha256 c).0 ≡ false) × Stays c rest (login os sha256 c).1
  unfolding login ignore get_password
  login_refused c user password rest h typed =
      simp
        (
          typed,
          read_word-space newline user (password ++ newline ∷ rest) refl h.word,
          getline-line [] password rest h.clean,
          h.refused,
        )
        (refl, record { files = refl; users = refl; left = refl })

  warn-Stays : (n : ℕ) (c d : Console S) (rest : Text) → Stays c rest d → Stays c rest (warn n d)
  warn-Stays zero c d rest h = h
  warn-Stays (suc n) c d rest h = record { files = h.files; users = h.users; left = h.left }

  login_attempts-refused :
      (tries : List Account) (c : Console S) (rest : Text)
      → All (IsRefused c.files) tries
      → c.input ≡ stream (logins tries rest)
      → ((login_attempts os sha256 (length tries) c).0 ≡ false)
        × Stays c rest (login_attempts os sha256 (length tries) c).1
  login_attempts-refused [] c rest h typed =
      unfold login_attempts in (refl, record { files = refl; users = refl; left = typed })
  login_attempts-refused ((user, password) ∷ tries) c rest h typed =
      let (out, stays) = login_refused c user password (logins tries rest) h.0 typed in
      let warned = warn (length tries) (login os sha256 c).1 in
      let kept = warn-Stays (length tries) c (login os sha256 c).1 (logins tries rest) stays in
      let (lost, more) =
        login_attempts-refused tries warned rest
          (subst (λ s. All (IsRefused s) tries) (sym kept.files) h.1) kept.left in
      rw (login_attempts-suc os sha256 (length tries) c, out)
        (
          lost,
          record {
            files = more.files ∙ kept.files;
            users = more.users ∙ kept.users;
            left = more.left;
          },
        )

  -- Three refused logins in a row end initialize.
  pub initialize_refused :
      (first second third : Account) (c : Console S) (rest : Text)
      → os.exists c.files passwd_name ≡ true
      → All (IsRefused c.files) (first ∷ second ∷ third ∷ [])
      → c.input ≡ stream (logins (first ∷ second ∷ third ∷ []) rest)
      → ((initialize os sha256 c).0 ≡ false) × Stays c rest (initialize os sha256 c).1
  unfolding initialize password_file_exists
  initialize_refused first second third c rest there h typed =
      rw there (login_attempts-refused (first ∷ second ∷ third ∷ []) c rest h typed)
