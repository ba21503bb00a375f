-- ===== src/Security/Entries.antt =====
-- The loop of UserManager::authenticate against the entries of the file's lines.
use lunix.Base.{
  ℕ, zero, suc, ◌<◌, ◌≡◌, refl, ap, not, ◌&&◌, ◌||◌, if◌then◌else◌, Bool, true, false, List, [],
  ◌∷◌, ◌++◌, some, arith, length, inl, inr,
}
use lunix.Base.Text.{Text, text_eq}
use lunix.Stream.{Stream, stream, newline, getline, split_at}
use lunix.Stream.Lines.{
  lines, after, lines-split_at, getline-stream, getline_cases, length-after, Lacks, split_at-Lacks,
}
use lunix.Security.{read_entry, find_entry, dot}

-- The (user, hash) pairs that the loop compares, given the hash of the line before.
abbrev pub entries : Text → List Text → List (Text × Text)
entries hash [] = []
entries hash (l ∷ ls) = read_entry l [] hash ∷ entries (read_entry l [] hash).1 ls

abbrev pub matches : Text → Text → List (Text × Text) → Bool
matches username password_hash [] = false
matches username password_hash ((u, h) ∷ es) =
    (text_eq u username && text_eq h password_hash) || matches username password_hash es

-- A line is read whole before the dot is looked for, so the user of the line before is not kept.
read_entry-old : (line user hash : Text) → read_entry line user hash ≡ read_entry line [] hash
unfolding read_entry getline
read_entry-old line user hash = ground arith

-- One round of the loop, around what getline returns.
find_entry-suc :
    (fuel : ℕ) (file : Stream) (user hash u p : Text)
    → let (line, file') = getline newline [] file in
      let e = read_entry line [] hash in
      find_entry (suc fuel) file user hash u p ≡ (
        if not file'.fail
        then (if text_eq e.0 u && text_eq e.1 p then true else find_entry fuel file' e.0 e.1 u p)
        else false)
unfolding find_entry
find_entry-suc fuel file user hash u p = rw (read_entry-old (getline newline [] file).0 user hash)

-- The round after the last line fails.
find_entry-end :
    (fuel : ℕ) (user hash u p : Text)
    → find_entry fuel (record { rest = []; eof = true; fail = false }) user hash u p ≡ false
unfolding find_entry getline
find_entry-end zero user hash u p = refl
find_entry-end (suc f) user hash u p = refl

if-or : (a b : Bool) → (if a then true else b) ≡ (a || b)
if-or true b = refl
if-or false b = refl

-- The fuel of `authenticate` is enough: the loop finds what the entries hold.
pub find_entry-lines :
    (fuel : ℕ) (s user hash u p : Text)
    → length s < fuel
    → find_entry fuel (stream s) user hash u p ≡ matches u p (entries hash (lines s))
find_entry-lines zero s user hash u p h = absurd (omega arith)
find_entry-lines (suc f) [] user hash u p h = unfold find_entry getline lines in refl
find_entry-lines (suc f) (c ∷ s) user hash u p h =
    let l = (split_at newline (c ∷ s)).0 in
    let r = after (split_at newline (c ∷ s)).1 in
    let e = read_entry l [] hash in
    let ih = find_entry-lines f r e.0 e.1 u p (omega (arith, length-after c s)) in
    rw (lines-split_at c s, find_entry-suc f (stream (c ∷ s)) user hash u p)
      (elim (getline_cases c s []) [
        | inl more ↦ rw (more, if-or, ih)
        | inr (last, end) ↦
            rw (last, if-or, find_entry-end f e.0 e.1 u p, end) (unfold lines in refl)
      ])

-- A line with a dot gives what stands before and after the first one, whatever came before.
pub read_entry-dot :
    (l a b hash : Text)
    → split_at dot l ≡ (a, some b)
    → Lacks newline b
    → read_entry l [] hash ≡ (a, b)
unfolding read_entry
read_entry-dot l a b hash e h =
    rw (getline-stream dot [] l, e, getline-stream newline hash b, split_at-Lacks newline b h)

-- A line without a dot is a user with the hash of the line before.
pub read_entry-no_dot : (l hash : Text) → Lacks dot l → read_entry l [] hash ≡ (l, hash)
unfolding read_entry
read_entry-no_dot l hash h =
    rw (getline-stream dot [] l, split_at-Lacks dot l h) (unfold getline in refl)

pub matches-append :
    (u p : Text) (es fs : List (Text × Text))
    → matches u p (es ++ fs) ≡ (matches u p es || matches u p fs)
matches-append u p [] fs = refl
matches-append u p ((v, h) ∷ es) fs = ground (arith, matches-append u p es fs)

-- A hash that the loop carries out of the lines.
abbrev last_hash : Text → List Text → Text
last_hash hash [] = hash
last_hash hash (l ∷ ls) = last_hash (read_entry l [] hash).1 ls

pub entries-append :
    (hash : Text) (ls ms : List Text)
    → entries hash (ls ++ ms) ≡ entries hash ls ++ entries (last_hash hash ls) ms
entries-append hash [] ms = refl
entries-append hash (l ∷ ls) ms =
    ap (λ es. read_entry l [] hash ∷ es) (entries-append (read_entry l [] hash).1 ls ms)
