-- ===== src/Lsh/Arguments.antt =====
-- lsh::lshStart: which line runs which branch, and with what argument.
use lunix.Base.{
  ap, ◌∙◌, sym, if◌then◌else◌, Bool-cases, false, true, Bool, ◌||◌, ℕ, ◌≡◌, ◌⊎◌, ◌↔◌, inl, inr,
  refl, arith, ◌∷◌, ◌++◌, some,
}
use lunix.Base.Text.{Text, codes, text_eq, text_eq-true}
use lunix.Lsh.Command.{Command, classify}

-- Each of ten prefixes chooses its branch whatever comes next, and the branch gets all that is
-- behind the prefix; "ls " is given at least one byte, and "./" stays in the name of the program.
pub classify-argument :
    (s : Text) (c : ℕ)
    → (classify (codes "man " ++ s) ≡ Command.man s)
      × (classify (codes "cd " ++ s) ≡ Command.cd s)
      × (classify (codes "ls " ++ (c ∷ s)) ≡ Command.ls (c ∷ s))
      × (classify (codes "mkdir " ++ s) ≡ Command.mkdir s)
      × (classify (codes "cat " ++ s) ≡ Command.cat s)
      × (classify (codes "editor " ++ s) ≡ Command.editor s)
      × (classify (codes "rm -R " ++ s) ≡ Command.rm_r s)
      × (classify (codes "passwd " ++ s) ≡ Command.passwd (some s))
      × (classify (codes "mod " ++ s) ≡ Command.mod_name s)
      × (classify (codes "./" ++ s) ≡ Command.run (codes "./" ++ s))
unfolding classify
classify-argument s c =
    (refl, refl, ground arith, refl, refl, refl, refl, ground arith, ground arith, refl)

second : {a b : Bool} → a ≡ false → (a || b) ≡ true → b ≡ true
second p q = ground arith

abbrev is_quit : Command → Bool
is_quit Command.quit = true
is_quit command = false

is_quit-true : (command : Command) → is_quit command ≡ true → command ≡ Command.quit
is_quit-true Command.quit h = refl
is_quit-true _ h = cc

record IsOther (command : Command) : Type 0 where
  pub at : is_quit command ≡ false

IsOther-case : (command : Command) → is_quit command ≡ false → IsOther command
IsOther-case command h = record { at = h }

IsOther-if : (b : Bool) (c d : Command) → IsOther c → IsOther d → IsOther (if b then c else d)
IsOther-if true c d hc hd = hc
IsOther-if false c d hc hd = hd

is_quit-if : (b : Bool) (d : Command) → IsOther d → is_quit (if b then Command.quit else d) ≡ b
is_quit-if true d h = refl
is_quit-if false d h = h.at

is_quit-classify :
    (line : Text)
    → is_quit (classify line) ≡ (text_eq line (codes "shutdown") || text_eq line (codes "exit"))
unfolding classify
is_quit-classify line = is_quit-if _ _ (search (IsOther-if, IsOther-case) depth 40)

-- Only the lines "shutdown" and "exit" end the shell.
classify-quit :
    (line : Text)
    → (classify line ≡ Command.quit) ↔ ((line ≡ codes "shutdown") ⊎ (line ≡ codes "exit"))
unfolding classify
classify-quit line = (
  λ e. elim (Bool-cases (text_eq line (codes "shutdown"))) [
    | inl h ↦ inl (text_eq-true line _ h)
    | inr h ↦ inr (text_eq-true line _ (second h (sym (is_quit-classify line) ∙ ap is_quit e)))
  ],
  λ e. elim e [ inl h ↦ rw h | inr h ↦ rw h ],
)
