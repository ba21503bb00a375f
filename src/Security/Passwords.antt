-- ===== src/Security/Passwords.antt =====
-- UserManager::setPassword, createPasswordFile and authenticate together.
use mathlib.Core.List.{append_assoc}
use lunix.Base.{
  ℕ, ◌+◌, ◌≡◌, ◌≢◌, refl, sym, ◌∙◌, ap, ◌&&◌, ◌||◌, true, List, [], ◌∷◌, ◌++◌, none, some, arith,
  length, All-append, All-append_right, inl, inr, Option-cases,
}
use lunix.Base.Text.{Text, text_eq, text_eq_refl}
use lunix.Stream.{newline, split_at}
use lunix.Stream.Lines.{lines, lines-append, lines-line, IsTerminated, Lacks, split_at-append}
use lunix.Os.{Os, FileLaws, contents}
use lunix.Security.{dot, passwd_name, hash_password, passwd_line, authenticate, set_password}
use lunix.Security.Entries.{
  entries, matches, find_entry-lines, read_entry-dot, matches-append, entries-append,
}
use lunix.Security.Digests.{Sha256Laws, hash-Lacks, too_long}

-- The line of a user, with the newline taken off.
abbrev pub entry_line : (Text → List ℕ) → Text → Text → Text
entry_line sha256 username password = username ++ dot ∷ hash_password sha256 password

Lacks-append : (b : ℕ) (s t : Text) → Lacks b s → Lacks b t → Lacks b (s ++ t)
Lacks-append b s t = All-append (λ c. c ≢ b) s t

-- What the loop finds in a file with one line more, a line that holds a dot.
pub matches-line :
    (u p content l a b : Text)
    → IsTerminated content
    → Lacks newline l
    → split_at dot l ≡ (a, some b)
    → Lacks newline b
    → matches u p (entries [] (lines (content ++ (l ++ newline ∷ []))))
      ≡ (matches u p (entries [] (lines content)) || (text_eq a u && text_eq b p))
matches-line u p content l a b ht hl e hb =
    rw
      (
        lines-append content (l ++ newline ∷ []) ht,
        lines-line l hl,
        entries-append [] (lines content) (l ∷ []),
        matches-append u p (entries [] (lines content)) _,
        read_entry-dot l a b _ e hb,
      )
      (ground arith)

-- The digest of a user's hash in a line never holds a dot or a newline.
pub entry_line-Lacks :
    (sha256 : Text → List ℕ) (sha : Sha256Laws sha256) (u p : Text)
    → Lacks newline u
    → Lacks newline (entry_line sha256 u p)
entry_line-Lacks sha256 sha u p h =
    Lacks-append newline u _ h
      ((λ e. omega (arith, e)), hash-Lacks sha256 sha newline p (λ d. omega arith))

module _ {S : Type 0} (os : Os S) (laws : FileLaws os) (sha256 : Text → List ℕ) where
  abbrev pub password_file : S → Text
  password_file s = contents (os.read s passwd_name)

  -- `authenticate` searches the entries of the password file.
  pub authenticate-entries :
      (s : S) (u p : Text)
      → authenticate os sha256 s u p
        ≡ matches u (hash_password sha256 p) (entries [] (lines (password_file s)))
  unfolding authenticate
  authenticate-entries s u p = elim (Option-cases (os.read s passwd_name)) [
    | inl e ↦ rw e (unfold lines in refl)
    | inr (c, e) ↦ rw e (find_entry-lines (length c + 1) c [] [] u _ (omega arith))
  ]

  -- Who is let in hangs on the bytes of the password file.
  pub same-authenticate :
      (s t : S) (v q : Text)
      → password_file s ≡ password_file t
      → authenticate os sha256 s v q ≡ authenticate os sha256 t v q
  same-authenticate s t v q e =
      authenticate-entries s v q
      ∙ ap (λ content. matches v (hash_password sha256 q) (entries [] (lines content))) e
      ∙ sym (authenticate-entries t v q)

  pub read-set_password :
      (s t : S) (u p : Text)
      → os.open_append s passwd_name ≡ some t
      → os.read (set_password os sha256 s u p) passwd_name
        ≡ some (password_file s ++ passwd_line sha256 u p)
  unfolding set_password
  read-set_password s t u p e =
      rw (e, set_password)
        (laws.read-write t passwd_name _ _ (laws.read-open_append s t passwd_name e))

  set_password-unopened :
      (s : S) (u p : Text) → os.open_append s passwd_name ≡ none → set_password os sha256 s u p ≡ s
  unfolding set_password
  set_password-unopened s u p e = rw (e, set_password)

  -- Where the password file ends with a newline, then whatever the user name and the password are
  -- and whether or not the file opens, who could log in before passwd still can: a changed
  -- password does not end the old one.
  pub set_password_keeps :
      (s : S) (u p v q : Text)
      → IsTerminated (password_file s)
      → authenticate os sha256 s v q ≡ true
      → authenticate os sha256 (set_password os sha256 s u p) v q ≡ true
  set_password_keeps s u p v q ht h = elim (Option-cases (os.open_append s passwd_name)) [
    | inl e ↦ rw (set_password-unopened s u p e) h
    | inr (t, e) ↦
        let found = sym (authenticate-entries s v q) ∙ h in
        rw (
          authenticate-entries (set_password os sha256 s u p) v q,
          read-set_password s t u p e,
          lines-append (password_file s) (passwd_line sha256 u p) ht,
          entries-append [] (lines (password_file s)) (lines (passwd_line sha256 u p)),
          matches-append v (hash_password sha256 q) (entries [] (lines (password_file s))) _,
          found,
        )
  ]

  module _ (sha : Sha256Laws sha256) where
    set_password-matches :
        (s t : S) (u p v q a b : Text)
        → os.open_append s passwd_name ≡ some t
        → IsTerminated (password_file s)
        → Lacks newline u
        → split_at dot (entry_line sha256 u p) ≡ (a, some b)
        → Lacks newline b
        → authenticate os sha256 (set_password os sha256 s u p) v q
          ≡ (authenticate os sha256 s v q || (text_eq a v && text_eq b (hash_password sha256 q)))
    set_password-matches s t u p v q a b e ht hu hd hb =
        rw
          (
            authenticate-entries (set_password os sha256 s u p) v q,
            read-set_password s t u p e,
            authenticate-entries s v q,
          )
          (matches-line v _ (password_file s) (entry_line sha256 u p) a b ht
            (entry_line-Lacks sha256 sha u p hu) hd hb)

    -- Where the password file can be opened and ends with a newline, passwd for a user name with
    -- no dot and no newline lets in that user with that password, or one of the same hash, beside
    -- everybody who was let in before, and nobody else.
    pub authenticate-set_password :
        (s t : S) (u p v q : Text)
        → os.open_append s passwd_name ≡ some t
        → IsTerminated (password_file s)
        → Lacks dot u
        → Lacks newline u
        → authenticate os sha256 (set_password os sha256 s u p) v q ≡ (
            authenticate os sha256 s v q
            || (text_eq u v && text_eq (hash_password sha256 p) (hash_password sha256 q)))
    authenticate-set_password s t u p v q e ht hd hn =
        set_password-matches s t u p v q u (hash_password sha256 p) e ht hn
          (split_at-append dot u _ hd) (hash-Lacks sha256 sha newline p (λ d. omega arith))

    -- A user name with a dot is cut at it when the file is read: passwd for such a name lets
    -- nobody in.
    pub set_password_dotted :
        (s t : S) (a b p v q : Text)
        → os.open_append s passwd_name ≡ some t
        → IsTerminated (password_file s)
        → Lacks dot a
        → Lacks newline (a ++ dot ∷ b)
        → authenticate os sha256 (set_password os sha256 s (a ++ dot ∷ b) p) v q
          ≡ authenticate os sha256 s v q
    set_password_dotted s t a b p v q e ht hd hn =
        let tail = b ++ dot ∷ hash_password sha256 p in
        let split : entry_line sha256 (a ++ dot ∷ b) p ≡ a ++ dot ∷ tail =
          append_assoc a (dot ∷ b) _ in
        let clean = entry_line-Lacks sha256 sha (a ++ dot ∷ b) p hn in
        rw
          (
            set_password-matches s t (a ++ dot ∷ b) p v q a tail e ht hn
                (ap (split_at dot) split ∙ split_at-append dot a tail hd)
                (All-append_right (λ c. c ≢ newline) a (dot ∷ tail) (rw split at clean)).1,
            too_long sha256 sha b p q,
          )
          (ground arith)

    -- A file of one user's line lets that user in.
    pub authenticate-line :
        (s : S) (u p : Text)
        → os.read s passwd_name ≡ some (passwd_line sha256 u p)
        → Lacks dot u
        → Lacks newline u
        → authenticate os sha256 s u p ≡ true
    authenticate-line s u p e hd hn =
        let hash = hash_password sha256 p in
        rw
          (
            authenticate-entries s u p,
            e,
            matches-line u hash [] (entry_line sha256 u p) u hash tt
                (entry_line-Lacks sha256 sha u p hn) (split_at-append dot u hash hd)
                (hash-Lacks sha256 sha newline p (λ d. omega arith)),
            text_eq_refl u,
            text_eq_refl hash,
          )
          (unfold lines in refl)
