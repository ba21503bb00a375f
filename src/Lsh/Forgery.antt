-- ===== src/Lsh/Forgery.antt =====
-- lsh::simpleEditor on the password file: the editor asks nobody who they are.
use lunix.Base.{
  ap, subst, ℕ, ◌≡◌, ◌≢◌, ◌<◌, refl, sym, ◌∙◌, arith, false, List, [], ◌∷◌, ◌++◌, some,
  All-append_right, inl, inr, Bool-cases, ◌||◌, ◌&&◌,
}
use lunix.Base.Text.{Text, codes, text_eq, text_eq-true}
use lunix.Stream.{stream, newline}
use lunix.Stream.Lines.{Lacks, IsTerminated}
use lunix.Os.{FileLaws, contents}
use lunix.Security.{dot, hash_password, passwd_line, passwd_name, set_password, authenticate}
use lunix.Security.Digests.{Sha256Laws}
use lunix.Security.Passwords.{
  authenticate-set_password, same-authenticate, entry_line, entry_line-Lacks, read-set_password,
}
use lunix.Machine.{Machine, Host, returns}
use lunix.Lsh.Command.{classify}
use lunix.Lsh.Editor.{quit_line, IsEntry, simple_editor-saves}
use lunix.Lsh.Shell.{Net, execute}

-- A text with a dot is not the line that closes the editor.
dotted-other : (a b : Text) → text_eq (a ++ dot ∷ b) quit_line ≡ false
dotted-other a b = elim (Bool-cases (text_eq (a ++ dot ∷ b) quit_line)) [
  | inl same ↦
      let clean : Lacks dot (a ++ dot ∷ b) =
        subst (Lacks dot) (sym (text_eq-true (a ++ dot ∷ b) quit_line same)) (omega arith) in
      absurd ((All-append_right (λ c. c ≢ dot) a (dot ∷ b) clean).0 refl)
  | inr other ↦ other
]

entry_line-IsEntry :
    (sha256 : Text → List ℕ) (sha : Sha256Laws sha256) (u p : Text)
    → Lacks newline u
    → IsEntry (entry_line sha256 u p)
entry_line-IsEntry sha256 sha u p h =
    (entry_line-Lacks sha256 sha u p h, dotted-other u (hash_password sha256 p))

module _ {S : Type 0} (host : Host S) (net : Net S) where
  -- Where the password file can be opened and ends with a newline, and whoever the user of the shell
  -- is: the line "editor .passwd", then the line that passwd would write for a user name with no dot
  -- and no newline and a password, then ":wq!" let in that user, root too, with that password, or one
  -- of the same hash, beside everybody who was let in before, and nobody else.
  pub editor-authenticate :
      (laws : FileLaws host.os) (sha : Sha256Laws host.sha256) (fuel : ℕ) (u p v q rest : Text)
      (t : S) (m : Machine S)
      → 1 < fuel
      → Lacks dot u
      → Lacks newline u
      → m.input ≡ stream (passwd_line host.sha256 u p ++ (quit_line ++ newline ∷ rest))
      → host.open_append m.files passwd_name ≡ some t
      → IsTerminated (contents (host.read m.files passwd_name))
      → (n : Machine S) × (execute host net fuel (classify (codes "editor .passwd")) m
          ≡ returns tt n)
        × (n.input ≡ stream rest)
        × (authenticate host.os host.sha256 n.files v q ≡ (
            authenticate host.os host.sha256 m.files v q
            || (text_eq u v
                && text_eq (hash_password host.sha256 p) (hash_password host.sha256 q))))
  unfolding execute classify
  editor-authenticate laws sha fuel u p v q rest t m enough hd hn typed opened ended =
      let (n, runs, left, saved) =
        simple_editor-saves host laws (entry_line host.sha256 u p ∷ []) fuel passwd_name rest t m
          (entry_line-IsEntry host.sha256 sha u p hn, tt) enough typed opened in
      (
        n,
        runs,
        left,
        same-authenticate host.os laws host.sha256 n.files
              (set_password host.os host.sha256 m.files u p) v q
              (ap contents
                (saved ∙ sym (read-set_password host.os laws host.sha256 m.files t u p opened)))
            ∙ authenticate-set_password host.os laws host.sha256 sha m.files t u p v q opened ended
                hd hn,
      )
