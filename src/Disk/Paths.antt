-- ===== src/Disk/Paths.antt =====
-- What disk.cpp and lsh.cpp ask of std::filesystem::path.
use lunix.Base.{◌==◌, if◌then◌else◌, ◌||◌, Bool, false, [], ◌∷◌, ◌++◌}
use lunix.Base.Text.{Text}

-- fs::path::operator/: an absolute right side replaces the left one.
abbrev is_absolute : Text → Bool
is_absolute [] = false
is_absolute (c ∷ s) = c == b'/'

unfoldable pub append_path : Text → Text → Text
append_path p q = if is_absolute q then q else p ++ b'/' ∷ q

-- operator<< of a path: std::quoted
abbrev escaped : Text → Text
escaped [] = []
escaped (c ∷ s) = if c == b'"' || c == 92 then 92 ∷ c ∷ escaped s else c ∷ escaped s

abbrev pub quoted : Text → Text
quoted s = b'"' ∷ (escaped s ++ b'"' ∷ [])
