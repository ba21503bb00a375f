-- ===== src/Security/Closing.antt =====
-- What a login takes of the input: words and whole lines.
use lunix.Base.{ℕ, zero, suc, Bool, List, Option, none, some, if_intro, []}
use lunix.Base.Text.{Text}
use lunix.Stream.Closing.{left, Whole, Within, Whole-Within}
use lunix.Stream.Closing.Reads.{read_word-Within, ignore-Within, getline-Whole}
use lunix.Os.{Os}
use lunix.Security.{
  Console, get_password, ask_root_password, create_password_file, login, login_attempts, initialize,
  warn, password_file_exists, authenticate,
}

module _ {S : Type 0} (os : Os S) (sha256 : Text → List ℕ) (last : Text) where
  get_password-Whole :
      (k : ℕ) (c : Console S)
      → Within last k (left c.input)
      → Whole last k (left (get_password c).1.input)
  unfolding get_password
  get_password-Whole k c h = getline-Whole last k [] c.input h

  ask_root_password-Within :
      (k : ℕ) (t : Option S) (c : Console S)
      → Within last k (left c.input)
      → Within last k (left (ask_root_password os sha256 t c).input)
  ask_root_password-Within k none c h = h
  ask_root_password-Within k (some t) c h = Whole-Within last k _ (get_password-Whole k _ h)

  login-Whole :
      (k : ℕ) (c : Console S)
      → Within last k (left c.input)
      → Whole last k (left (login os sha256 c).1.input)
  unfolding login
  login-Whole k c h =
      let named = read_word-Within last k [] c.input h in
      let ready = ignore-Within last k _ named in
      if_intro (λ (r : Bool × Console S). Whole last k (left r.1.input))
        (authenticate os sha256 c.files _ _) _ _ (λ e. get_password-Whole k _ ready)
        (λ e. get_password-Whole k _ ready)

  warn-Whole :
      (n k : ℕ) (c : Console S) → Whole last k (left c.input) → Whole last k (left (warn n c).input)
  warn-Whole zero k c h = h
  warn-Whole (suc n) k c h = h

  login_attempts-Whole :
      (n k : ℕ) (c : Console S)
      → Whole last k (left c.input)
      → Whole last k (left (login_attempts os sha256 n c).1.input)
  unfolding login_attempts
  login_attempts-Whole zero k c h = h
  login_attempts-Whole (suc n) k c h =
      let read = login-Whole k c (Whole-Within last k _ h) in
      if_intro (λ (r : Bool × Console S). Whole last k (left r.1.input)) (login os sha256 c).0 _ _
        (λ e. read)
        (λ e. login_attempts-Whole n k (warn n (login os sha256 c).1) (warn-Whole n k _ read))

  -- The first attempt reads a line of a password to its end.
  first_attempt-Whole :
      (n k : ℕ) (c : Console S)
      → Within last k (left c.input)
      → Whole last k (left (login_attempts os sha256 (suc n) c).1.input)
  unfolding login_attempts
  first_attempt-Whole n k c h =
      if_intro (λ (r : Bool × Console S). Whole last k (left r.1.input)) (login os sha256 c).0 _ _
        (λ e. login-Whole k c h)
        (λ e.
          login_attempts-Whole n k (warn n (login os sha256 c).1)
            (warn-Whole n k _ (login-Whole k c h)))

  pub initialize-Whole :
      (k : ℕ) (c : Console S)
      → Within last k (left c.input)
      → Whole last k (left (initialize os sha256 c).1.input)
  unfolding initialize create_password_file
  initialize-Whole k c h = first_attempt-Whole 2 k _ (
      if_intro (λ (d : Console S). Within last k (left d.input)) (password_file_exists os c.files) _
        _ (λ e. h) (λ e. ask_root_password-Within k _ c h))
