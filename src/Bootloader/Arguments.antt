-- ===== src/Bootloader/Arguments.antt =====
-- The arguments of main in lunix-bl/main.cpp.
use lunix.Base.{if◌then◌else◌, Bool, true, false, List, [], ◌∷◌}
use lunix.Base.Text.{Text, codes, text_eq}

pub record Options : Type 0 where
  pub ignore_hash_error : Bool
  pub run_post_build : Bool
  pub recovery_mode : Bool
  pub help_mode : Bool
  pub mode : Text

abbrev pub no_options : Options
no_options = record {
  ignore_hash_error = false;
  run_post_build = false;
  recovery_mode = false;
  help_mode = false;
  mode = codes "BOOT";
}

abbrev pub take_option : Text → Options → Options
take_option arg o =
    if text_eq arg (codes "--ignore-hash-err")
    then record o { ignore_hash_error = true }
    else if text_eq arg (codes "-b")
    then record o { run_post_build = true }
    else if text_eq arg (codes "-r")
    then record o { recovery_mode = true; mode = codes "RECOVERY" }
    else if text_eq arg (codes "-h")
    then record o { help_mode = true; mode = codes "HELP" }
    else o

unfoldable pub options : List Text → Options → Options
options [] o = o
options (arg ∷ args) o = options args (take_option arg o)
