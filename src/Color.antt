-- ===== src/Color.antt =====
-- color.h: the escape sequences.
use lunix.Base.{◌∷◌, ◌++◌}
use lunix.Base.Text.{Text, codes}

-- The sequence of ESC and some text.
abbrev pub escape : Text → Text
escape s = 27 ∷ s

abbrev pub reset : Text
reset = escape (codes "[0m")

abbrev black : Text
black = escape (codes "[30m")

abbrev pub red : Text
red = escape (codes "[31m")

abbrev pub green : Text
green = escape (codes "[32m")

abbrev pub yellow : Text
yellow = escape (codes "[33m")

abbrev blue : Text
blue = escape (codes "[34m")

abbrev magenta : Text
magenta = escape (codes "[35m")

abbrev pub cyan : Text
cyan = escape (codes "[36m")

abbrev white : Text
white = escape (codes "[37m")

abbrev bold_black : Text
bold_black = escape (codes "[1m") ++ escape (codes "[30m")

abbrev pub bold_red : Text
bold_red = escape (codes "[1m") ++ escape (codes "[31m")

abbrev pub bold_green : Text
bold_green = escape (codes "[1m") ++ escape (codes "[32m")

abbrev pub bold_yellow : Text
bold_yellow = escape (codes "[1m") ++ escape (codes "[33m")

abbrev pub bold_blue : Text
bold_blue = escape (codes "[1m") ++ escape (codes "[34m")

abbrev bold_magenta : Text
bold_magenta = escape (codes "[1m") ++ escape (codes "[35m")

abbrev pub bold_cyan : Text
bold_cyan = escape (codes "[1m") ++ escape (codes "[36m")

abbrev pub bold_white : Text
bold_white = escape (codes "[1m") ++ escape (codes "[37m")

abbrev underline_black : Text
underline_black = escape (codes "[4m") ++ escape (codes "[30m")

abbrev underline_red : Text
underline_red = escape (codes "[4m") ++ escape (codes "[31m")

abbrev underline_green : Text
underline_green = escape (codes "[4m") ++ escape (codes "[32m")

abbrev underline_yellow : Text
underline_yellow = escape (codes "[4m") ++ escape (codes "[33m")

abbrev underline_blue : Text
underline_blue = escape (codes "[4m") ++ escape (codes "[34m")

abbrev underline_magenta : Text
underline_magenta = escape (codes "[4m") ++ escape (codes "[35m")

abbrev underline_cyan : Text
underline_cyan = escape (codes "[4m") ++ escape (codes "[36m")

abbrev underline_white : Text
underline_white = escape (codes "[4m") ++ escape (codes "[37m")

abbrev bg_black : Text
bg_black = escape (codes "[40m")

abbrev bg_red : Text
bg_red = escape (codes "[41m")

abbrev bg_green : Text
bg_green = escape (codes "[42m")

abbrev pub bg_yellow : Text
bg_yellow = escape (codes "[43m")

abbrev pub bg_blue : Text
bg_blue = escape (codes "[44m")

abbrev bg_magenta : Text
bg_magenta = escape (codes "[45m")

abbrev bg_cyan : Text
bg_cyan = escape (codes "[46m")

abbrev bg_white : Text
bg_white = escape (codes "[47m")

abbrev hi_black : Text
hi_black = escape (codes "[90m")

abbrev hi_red : Text
hi_red = escape (codes "[91m")

abbrev hi_green : Text
hi_green = escape (codes "[92m")

abbrev hi_yellow : Text
hi_yellow = escape (codes "[93m")

abbrev hi_blue : Text
hi_blue = escape (codes "[94m")

abbrev hi_magenta : Text
hi_magenta = escape (codes "[95m")

abbrev hi_cyan : Text
hi_cyan = escape (codes "[96m")

abbrev hi_white : Text
hi_white = escape (codes "[97m")

abbrev bold_hi_black : Text
bold_hi_black = escape (codes "[1m") ++ escape (codes "[90m")

abbrev bold_hi_red : Text
bold_hi_red = escape (codes "[1m") ++ escape (codes "[91m")

abbrev bold_hi_green : Text
bold_hi_green = escape (codes "[1m") ++ escape (codes "[92m")

abbrev bold_hi_yellow : Text
bold_hi_yellow = escape (codes "[1m") ++ escape (codes "[93m")

abbrev bold_hi_blue : Text
bold_hi_blue = escape (codes "[1m") ++ escape (codes "[94m")

abbrev bold_hi_magenta : Text
bold_hi_magenta = escape (codes "[1m") ++ escape (codes "[95m")

abbrev bold_hi_cyan : Text
bold_hi_cyan = escape (codes "[1m") ++ escape (codes "[96m")

abbrev bold_hi_white : Text
bold_hi_white = escape (codes "[1m") ++ escape (codes "[97m")

abbrev hi_bg_black : Text
hi_bg_black = escape (codes "[100m")

abbrev hi_bg_red : Text
hi_bg_red = escape (codes "[101m")

abbrev hi_bg_green : Text
hi_bg_green = escape (codes "[102m")

abbrev hi_bg_yellow : Text
hi_bg_yellow = escape (codes "[103m")

abbrev hi_bg_blue : Text
hi_bg_blue = escape (codes "[104m")

abbrev hi_bg_magenta : Text
hi_bg_magenta = escape (codes "[105m")

abbrev hi_bg_cyan : Text
hi_bg_cyan = escape (codes "[106m")

abbrev hi_bg_white : Text
hi_bg_white = escape (codes "[107m")
