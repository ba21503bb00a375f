-- ===== src/Lsh/Handed.antt =====
-- lsh::lshStart: which lines go to the system's own shell.
use lunix.Base.{◌≡◌, ◌⊎◌, take}
use lunix.Base.Text.{Text, codes}
use lunix.Machine.{Host, Machine, put_files}
use lunix.Lsh.Shell.{Net}

-- A line that begins with "nano" or with "chmod", and the line "clear".
abbrev pub IsHanded : Text → Type 0
IsHanded line =
    (take 4 line ≡ codes "nano") ⊎ ((take 5 line ≡ codes "chmod") ⊎ (line ≡ codes "clear"))

module _ {S : Type 0} (host : Host S) (net : Net S) where
  -- What the system makes of a line in its shell.
  abbrev through_system : Text → Machine S → Machine S
  through_system line m = put_files (host.system m.files line).1 m
