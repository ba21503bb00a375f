-- ===== src/Security/Accounts.antt =====
-- UserManager::setPassword and authenticate against an abstract store of accounts.
use mathlib.Core.Quot
use mathlib.Core.Quot.{Quot, Quot-set}
use mathlib.Core.List.{Permᴰ}
use mathlib.Core.Bool.{Bool-set}
use lunix.Base.{
  ap, ℕ, ◌≡◌, refl, sym, ◌∙◌, ◌&&◌, ◌||◌, Bool, true, false, List, [], ◌∷◌, ◌++◌, All, none, some,
  arith,
}
use lunix.Base.Text.{Text, text_eq, text_eq_refl}
use lunix.Stream.{newline}
use lunix.Stream.Lines.{
  lines, IsTerminated, Lacks, IsTerminated-line, IsTerminated-append, split_at-append,
}
use lunix.Os.{Os, FileLaws}
use lunix.Security.{dot, passwd_name, passwd_line, hash_password, authenticate, set_password}
use lunix.Security.Digests.{Sha256Laws, hash-Lacks}
use lunix.Security.Passwords.{
  authenticate-entries, entry_line, authenticate-set_password, password_file, read-set_password,
  matches-line, entry_line-Lacks,
}

-- A user name and a password.
abbrev pub Account : Type 0
Account = Text × Text

module _ (sha256 : Text → List ℕ) where
  -- The account lets this user in with this password.
  abbrev pub fits : Account → Text → Text → Bool
  fits (u, p) v q = text_eq u v && text_eq (hash_password sha256 p) (hash_password sha256 q)

  abbrev pub admits : List Account → Text → Text → Bool
  admits [] v q = false
  admits (a ∷ rest) v q = admits rest v q || fits a v q

  -- The same logins.
  abbrev SameLogins : List Account → List Account → Type 0
  SameLogins xs ys = (v q : Text) → admits xs v q ≡ admits ys v q

  -- Accounts by nothing but who is let in.
  abbrev pub Accounts : Type 0
  Accounts = Quot SameLogins

  abbrev pub no_accounts : Accounts
  no_accounts = Quot.mk []

  pub admitted : Text → Text → Accounts → Bool
  admitted v q = Quot.lift Bool-set (λ xs. admits xs v q) (λ xs ys h. h v q)

  SameLogins-cons :
      (a : Account) (xs ys : List Account) → SameLogins xs ys → SameLogins (a ∷ xs) (a ∷ ys)
  SameLogins-cons a xs ys h v q = rw (h v q) refl

  pub grant : Account → Accounts → Accounts
  grant a =
      Quot.lift Quot-set (λ xs. Quot.mk (a ∷ xs))
        (λ xs ys h. Quot.sound (SameLogins-cons a xs ys h))

  ||-swap : (a b c : Bool) → ((a || b) || c) ≡ ((a || c) || b)
  ||-swap a b c = ground arith

  -- In the store the order of the grants is forgotten.
  grant_comm : (a b : Account) (x : Accounts) → grant a (grant b x) ≡ grant b (grant a x)
  unfolding grant
  grant_comm a b =
      Quot.ind (λ x. Quot-set _ _)
        (λ xs. Quot.sound (λ v q. ||-swap (admits xs v q) (fits b v q) (fits a v q)))

  admitted-grant :
      (a : Account) (v q : Text) (x : Accounts)
      → admitted v q (grant a x) ≡ admitted v q x || fits a v q
  unfolding admitted grant
  admitted-grant a v q = Quot.ind (λ x. Bool-set _ _) (λ xs. refl)

module _ {S : Type 0} (os : Os S) (laws : FileLaws os) (sha256 : Text → List ℕ)
    (sha : Sha256Laws sha256) where
  -- The files let in exactly whom the store lets in, and the password file ends with a newline.
  pub record Represents (s : S) (x : Accounts sha256) : Type 0 where
    pub logins : (v q : Text) → authenticate os sha256 s v q ≡ admitted sha256 v q x
    pub terminated : IsTerminated (password_file os laws sha256 s)

  -- passwd for one account after the other.
  abbrev pub set_passwords : S → List Account → S
  set_passwords s [] = s
  set_passwords s ((u, p) ∷ calls) = set_passwords (set_password os sha256 s u p) calls

  abbrev pub grants : Accounts sha256 → List Account → Accounts sha256
  grants x [] = x
  grants x (a ∷ calls) = grants (grant sha256 a x) calls

  -- A name that a line can hold.
  abbrev pub IsPlain : Account → Type 0
  IsPlain (u, p) = Lacks dot u × Lacks newline u

  set_password-Represents :
      (s t : S) (u p : Text) (x : Accounts sha256)
      → os.open_append s passwd_name ≡ some t
      → IsPlain (u, p)
      → Represents s x
      → Represents (set_password os sha256 s u p) (grant sha256 (u, p) x)
  set_password-Represents s t u p x e plain r = record {
    logins = λ v q.
        authenticate-set_password os laws sha256 sha s t u p v q e r.terminated plain.0 plain.1
        ∙ rw (r.logins v q, admitted-grant sha256 (u, p) v q x) refl;
    terminated = rw (read-set_password os laws sha256 s t u p e) (
        IsTerminated-append (password_file os laws sha256 s) (passwd_line sha256 u p) r.terminated
          (IsTerminated-line (entry_line sha256 u p)));
  }

  -- From files that let in exactly whom a store of accounts does and whose password file ends with a
  -- newline, and where that file can always be opened, passwd calls for names with no dot and no
  -- newline lead to files that let in exactly whom the store does when it is granted these accounts;
  -- the store forgets order and repetition.
  pub set_passwords-Represents :
      ((s : S) → (t : S) × (os.open_append s passwd_name ≡ some t))
      → (s : S) (x : Accounts sha256) (calls : List Account) → All IsPlain calls
      → Represents s x
      → Represents (set_passwords s calls) (grants x calls)
  set_passwords-Represents opens s x [] plain r = r
  set_passwords-Represents opens s x ((u, p) ∷ calls) plain r =
      let (t, e) = opens s in
      set_passwords-Represents opens (set_password os sha256 s u p) (grant sha256 (u, p) x) calls
        plain.1 (set_password-Represents s t u p x e plain.0 r)

  grants-Perm :
      {cs ds : List Account} (x : Accounts sha256) → Permᴰ cs ds → grants x cs ≡ grants x ds
  grants-Perm x Permᴰ.nil = refl
  grants-Perm x (Permᴰ.cons {a} {b} {l₁} e h) =
      ap (λ a. grants (grant sha256 a x) l₁) e ∙ grants-Perm _ h
  grants-Perm x (Permᴰ.swap {a} {b} {a'} {b'} {l} e f) =
      ap (λ y. grants y l) (grant_comm sha256 b a x ∙ rw (e, f) refl)
  grants-Perm x (Permᴰ.trans h k) = grants-Perm x h ∙ grants-Perm x k

  -- The order of passwd calls makes no difference to who can log in: not even the last password of
  -- a user stands out, under the conditions of set_passwords-Represents.
  pub set_passwords-Perm :
      ((s : S) → (t : S) × (os.open_append s passwd_name ≡ some t))
      → (s : S) (x : Accounts sha256) (cs ds : List Account) (v q : Text) → All IsPlain cs
      → All IsPlain ds
      → Represents s x
      → Permᴰ cs ds
      → authenticate os sha256 (set_passwords s cs) v q
        ≡ authenticate os sha256 (set_passwords s ds) v q
  set_passwords-Perm opens s x cs ds v q pc pd r perm =
      (set_passwords-Represents opens s x cs pc r).logins v q
      ∙ ap (admitted sha256 v q) (grants-Perm x perm)
      ∙ sym ((set_passwords-Represents opens s x ds pd r).logins v q)

  admitted-grants :
      (v q : Text) (x : Accounts sha256) (calls : List Account)
      → admitted sha256 v q x ≡ true
      → admitted sha256 v q (grants x calls) ≡ true
  admitted-grants v q x [] h = h
  admitted-grants v q x (a ∷ calls) h =
      admitted-grants v q (grant sha256 a x) calls (rw (admitted-grant sha256 a v q x, h) refl)

  ||-true : (a : Bool) → (a || true) ≡ true
  ||-true a = ground arith

  -- An account that is granted lets its user in, whatever is granted before and after it.
  pub admitted-granted :
      (u p : Text) (before after : List Account) (x : Accounts sha256)
      → admitted sha256 u p (grants x (before ++ (u, p) ∷ after)) ≡ true
  admitted-granted u p [] after x = admitted-grants u p (grant sha256 (u, p) x) after (
      admitted-grant sha256 (u, p) u p x
      ∙ rw (text_eq_refl u, text_eq_refl (hash_password sha256 p))
          (||-true (admitted sha256 u p x)))
  admitted-granted u p (a ∷ before) after x = admitted-granted u p before after (grant sha256 a x)

  -- A system with no password file has no accounts.
  pub no_file-Represents :
      (s : S) → os.read s passwd_name ≡ none → Represents s (no_accounts sha256)
  unfolding admitted lines
  no_file-Represents s e = record {
    logins = λ v q. rw (authenticate-entries os laws sha256 s v q, e) refl;
    terminated = rw e tt;
  }

  -- A file of one line has that account.
  pub line-Represents :
      (s : S) (u p : Text)
      → os.read s passwd_name ≡ some (passwd_line sha256 u p)
      → IsPlain (u, p)
      → Represents s (grant sha256 (u, p) (no_accounts sha256))
  unfolding admitted grant lines
  line-Represents s u p e plain = record {
    logins = λ v q.
        authenticate-entries os laws sha256 s v q
        ∙ rw e (
            matches-line v (hash_password sha256 q) [] (entry_line sha256 u p) u
              (hash_password sha256 p) tt (entry_line-Lacks sha256 sha u p plain.1)
              (split_at-append dot u _ plain.0)
              (hash-Lacks sha256 sha newline p (λ d. omega arith)));
    terminated = rw e (IsTerminated-line (entry_line sha256 u p));
  }
