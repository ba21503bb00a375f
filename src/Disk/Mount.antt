-- ===== src/Disk/Mount.antt =====
-- disk::rootfs: the question whether to make the root file system, asked until it is answered.
use lunix.Base.{
  ℕ, zero, suc, ◌≤◌, ◌≡◌, inl, inr, refl, ◌∙◌, ◌||◌, Bool, true, false, List, [], ◌∷◌, arith,
  Bool-cases, length,
}
use lunix.Base.Text.{Text, codes}
use lunix.Stream.{stream, good, newline, getline, split_at}
use lunix.Stream.Lines.{lines, after, lines-split_at, getline_cases}
use lunix.Machine.{put_out, Machine, Host, spent}
use lunix.Machine.Ends.{Finishes}
use lunix.ErrorHandler.Oops.{panic-IsTotal, oops-IsTotal}
use lunix.Machine.Total.{IsTotal, IsTotal-then, total_rules}
use lunix.Disk.{
  ask_rootfs, invalid_input, is_yes, is_no, mount, make_rootfs, rootfs, create_directory, chdir,
  list_modules,
}

-- The answers that end the question.
abbrev pub is_answer : Text → Bool
is_answer s = is_yes s || is_no s

abbrev pub answered : List Text → Bool
answered [] = false
answered (l ∷ ls) = is_answer l || answered ls

neither : (a : Bool) {b : Bool} → (a || b) ≡ false → (a ≡ false) × (b ≡ false)
neither true h = cc
neither false h = (refl, h)

pub second : (a : Bool) {b : Bool} → a ≡ false → (a || b) ≡ true → b ≡ true
second a p q = ground arith

lines-nil : answered (lines []) ≡ false
unfolding lines
lines-nil = refl

answered-length : (ls : List Text) → answered ls ≡ true → length ls ≤ 0 → ⊥
answered-length [] h le = cc
answered-length (l ∷ ls) h le = omega arith

module _ {S : Type 0} (host : Host S) where
  -- The root file system is not there.
  abbrev pub IsMissing : Machine S → Type 0
  IsMissing m = host.exists m.files (host.absolute m.files (codes "rootfs")) ≡ false

  abbrev asked_again : Machine S → Machine S
  asked_again m = put_out invalid_input (
      put_out (ask_rootfs (host.current_path m.files)) (record m {
        rootfs_absolute_path = host.absolute m.files (codes "rootfs");
        console = record m.console { input = (getline newline [] m.input).1 };
      }))

  -- An answer that is neither yes nor no leads to the same question.
  rootfs-again :
      (fuel : ℕ) (m : Machine S)
      → IsMissing m
      → is_answer (getline newline [] m.input).0 ≡ false
      → rootfs host (suc fuel) m ≡ rootfs host fuel (asked_again m)
  unfolding rootfs
  rootfs-again fuel m missing other = ground arith

  create_directory-IsTotal : (path : Text) → IsTotal (create_directory host path)
  unfolding create_directory
  create_directory-IsTotal path = record { at = λ m. ground arith }

  chdir-IsTotal : (path : Text) → IsTotal (chdir host path)
  unfolding chdir
  chdir-IsTotal path = record { at = λ m. tt }

  list_modules-IsTotal : (path : Text) → IsTotal (list_modules host path)
  unfolding list_modules
  list_modules-IsTotal path = record { at = λ m. ground arith }

  ruleset mount_rules = (
    total_rules, panic-IsTotal, oops-IsTotal, create_directory-IsTotal, chdir-IsTotal,
    list_modules-IsTotal,
  )

  make_rootfs-IsTotal : (path : Text) → IsTotal (make_rootfs host path)
  make_rootfs-IsTotal path = unfold make_rootfs in search mount_rules depth 9

  mount-IsTotal : (path mod_path : Text) → IsTotal (mount host path mod_path)
  mount-IsTotal path mod_path = unfold mount in search mount_rules depth 12

  -- At the end of the input, and after a failure, no round gets an answer.
  rootfs-ended :
      (fuel : ℕ) (m : Machine S) → IsMissing m → good m.input ≡ false → rootfs host fuel m ≡ spent
  rootfs-ended zero m missing ended = unfold rootfs in refl
  rootfs-ended (suc fuel) m missing ended =
      let e : getline newline [] m.input ≡ ([], record m.input { fail = true }) =
        unfold getline in rw ended in
      rootfs-again fuel m missing (rw e)
      ∙ rootfs-ended fuel (asked_again m) missing (rw e (ground arith))

  -- While the root file system is missing and no line of the input is an answer, rootfs asks for
  -- ever: no fuel is enough.
  rootfs-spent :
      (fuel : ℕ) (s : Text) (m : Machine S)
      → IsMissing m
      → m.input ≡ stream s
      → answered (lines s) ≡ false
      → rootfs host fuel m ≡ spent
  rootfs-spent zero s m missing typed h = unfold rootfs in refl
  rootfs-spent (suc fuel) [] m missing typed h =
      rootfs-again fuel m missing (rw typed (unfold getline in refl))
      ∙ rootfs-ended fuel (asked_again m) missing (rw typed (unfold getline in refl))
  rootfs-spent (suc fuel) (c ∷ s) m missing typed h =
      let l = (split_at newline (c ∷ s)).0 in
      let r = after (split_at newline (c ∷ s)).1 in
      let first = neither (is_answer l) (rw lines-split_at at h) in
      elim (getline_cases c s []) [
        | inl e ↦
            rootfs-again fuel m missing (rw (typed, e) first.0)
            ∙ rootfs-spent fuel r (asked_again m) missing (rw (typed, e)) first.1
        | inr (e, end) ↦
            rootfs-again fuel m missing (rw (typed, e) first.0)
            ∙ rootfs-ended fuel (asked_again m) missing (rw (typed, e))
      ]

  -- A yes or a no is carried out to an end.
  rootfs-answer :
      (fuel : ℕ) (m : Machine S)
      → IsMissing m
      → is_answer (getline newline [] m.input).0 ≡ true
      → Finishes (rootfs host (suc fuel) m)
  unfolding rootfs
  rootfs-answer fuel m missing answer =
      let reply = (getline newline [] m.input).0 in
      elim (Bool-cases (is_yes reply)) [
        | inl yes_ ↦
            rw (missing, yes_) ((IsTotal-then _ _ (make_rootfs-IsTotal _) (mount-IsTotal _ _)).at _)
        | inr not_yes ↦
            rw (missing, not_yes, second (is_yes reply) not_yes answer)
              ((IsTotal-then _ _ (panic-IsTotal host _) (mount-IsTotal _ _)).at _)
      ]

  -- With a line that answers among those of the input, as many rounds as there are lines are
  -- enough for rootfs to return, throw or end the process.
  pub rootfs-Finishes :
      (fuel : ℕ) (s : Text) (m : Machine S)
      → IsMissing m
      → m.input ≡ stream s
      → answered (lines s) ≡ true
      → length (lines s) ≤ fuel
      → Finishes (rootfs host fuel m)
  rootfs-Finishes zero s m missing typed h enough = absurd (answered-length (lines s) h enough)
  rootfs-Finishes (suc fuel) [] m missing typed h enough = absurd (cc (lines-nil, h))
  rootfs-Finishes (suc fuel) (c ∷ s) m missing typed h enough =
      let l = (split_at newline (c ∷ s)).0 in
      let r = after (split_at newline (c ∷ s)).1 in
      let h' = rw lines-split_at at h in
      let enough' = rw lines-split_at at enough in
      elim (Bool-cases (is_answer l)) [
        | inl now ↦
            rootfs-answer fuel m missing (
              rw typed (elim (getline_cases c s []) [ inl e ↦ rw e now | inr (e, end) ↦ rw e now ]))
        | inr later ↦
            let more = second (is_answer l) later h' in
            elim (getline_cases c s []) [
              | inl e ↦ rw (rootfs-again fuel m missing (rw (typed, e) later)) (
                  rootfs-Finishes fuel r (asked_again m) missing (rw (typed, e)) more (omega arith))
              | inr (e, end) ↦ absurd (cc (lines-nil, rw end at more))
            ]
      ]
