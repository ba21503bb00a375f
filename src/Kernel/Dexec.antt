-- ===== src/Kernel/Dexec.antt =====
-- dexec of kernel.cpp: what a command writes, gathered by fgets.
use mathlib.Core.List.{append_assoc, append-nil}
use lunix.Base.{
  ◌≢◌, All-append_left, All-append_right, subst, ℕ, zero, suc, ◌+◌, ◌==◌, ◌≤◌, ◌≡◌, refl, ◌∙◌, sym,
  ap, if◌then◌else◌, [], ◌∷◌, ◌++◌, Option, none, some, arith, length,
}
use lunix.Base.Text.{Text, c_string}
use lunix.Stream.{newline}
use lunix.Stream.Lines.{Lacks, c_string-Lacks}
use lunix.Machine.{Machine, M, returns, throws, put_files}

-- The bytes that fgets takes, n of them at most and none behind a newline, and the rest.
unfoldable pub fgets : ℕ → Text → Text × Text
fgets zero s = ([], s)
fgets (suc n) [] = ([], [])
fgets (suc n) (c ∷ s) =
    let (chunk, rest) = fgets n s in if c == newline then (c ∷ [], s) else (c ∷ chunk, rest)

-- The loop, with fuel: one round more than there are bytes is enough. A chunk is added up to its
-- first byte 0.
unfoldable pub gather : ℕ → Text → Text → Text
gather zero result pipe = result
gather (suc fuel) result [] = result
gather (suc fuel) result (c ∷ pipe) =
    let (chunk, rest) = fgets 127 (c ∷ pipe) in gather fuel (result ++ c_string chunk) rest

abbrev pub read_pipe : {S : Type 0} → Option (Text × S) → M S Text
read_pipe none m = throws m
read_pipe (some (output, s)) m = returns (gather (length output + 1) [] output) (put_files s m)

-- The parameter gives what popen's pipe holds, up to its end.
unfoldable pub dexec : {S : Type 0} → (S → Text → Option (Text × S)) → Text → M S Text
dexec popen cmd m = read_pipe (popen m.files cmd) m

fgets-append : (n : ℕ) (s : Text) → (fgets n s).0 ++ (fgets n s).1 ≡ s
unfolding fgets
fgets-append zero s = refl
fgets-append (suc n) [] = refl
fgets-append (suc n) (c ∷ s) = ground (arith, fgets-append n s)

length-fgets : (n : ℕ) (s : Text) → length (fgets n s).1 ≤ length s
unfolding fgets
length-fgets zero s = omega arith
length-fgets (suc n) [] = omega arith
length-fgets (suc n) (c ∷ s) = ground (arith, length-fgets n s)

-- A round takes at least one byte.
length-fgets_round : (n c : ℕ) (s : Text) → length (fgets (suc n) (c ∷ s)).1 ≤ length s
unfolding fgets
length-fgets_round n c s = ground (arith, length-fgets n s)

gather-Lacks :
    (fuel : ℕ) (result pipe : Text)
    → length pipe ≤ fuel
    → Lacks 0 pipe
    → gather fuel result pipe ≡ result ++ pipe
unfolding gather
gather-Lacks zero result [] le h = sym (append-nil result)
gather-Lacks zero result (c ∷ pipe) le h = absurd (omega arith)
gather-Lacks (suc fuel) result [] le h = sym (append-nil result)
gather-Lacks (suc fuel) result (c ∷ pipe) le h =
    let split = fgets-append 127 (c ∷ pipe) in
    let clean = subst (Lacks 0) (sym split) h in
    let chunk = (fgets 127 (c ∷ pipe)).0 in
    let rest = (fgets 127 (c ∷ pipe)).1 in
    gather-Lacks fuel (result ++ c_string chunk) rest (omega (arith, length-fgets_round 126 c pipe))
      (All-append_right (λ c. c ≢ 0) chunk rest clean)
    ∙ ap (λ s. (result ++ s) ++ rest)
        (c_string-Lacks chunk (All-append_left (λ c. c ≢ 0) chunk rest clean))
    ∙ append_assoc result chunk rest
    ∙ ap (λ s. result ++ s) split

-- Where popen gives a pipe whose bytes have no byte 0, dexec returns exactly these bytes, however
-- many lines they make and however long these are.
dexec-output :
    {S : Type 0} (popen : S → Text → Option (Text × S)) (cmd output : Text) (m : Machine S) (s : S)
    → popen m.files cmd ≡ some (output, s)
    → Lacks 0 output
    → dexec popen cmd m ≡ returns output (put_files s m)
unfolding dexec
dexec-output popen cmd output m s e h =
    ap (λ p. read_pipe p m) e
    ∙ ap (λ text. returns text (put_files s m))
        (gather-Lacks (length output + 1) [] output (omega arith) h)
