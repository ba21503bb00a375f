-- ===== src/Bootloader.antt =====
-- lunix-bl/main.cpp: the bootloader, which checks the kernel's digest and starts it.
mod Arguments
mod Color
pub mod Digest
pub mod Verified
pub mod Missing
pub use Arguments.{Options, no_options, take_option}
unfoldable pub use Arguments.{options}
use lunix.Base.{
  ◌+◌, ℕ, zero, suc, ◌==◌, ltb, if◌then◌else◌, Bool, true, false, List, [], ◌∷◌, ◌++◌, Option, none,
  some, take, drop, length,
}
use lunix.Base.Text.{Text, codes, text_eq, join, endl}
use Color.{reset, bold_red, bold_green, bold_yellow, bold_white, yellow, cyan}
use lunix.Base.Decimal.{decimal}
use lunix.Stream.{Stream, stream, read_word}
use lunix.Hex.{hex_dump}
use lunix.Machine.{WaitStatus, exited, killed}

-- The EVP interface of OpenSSL: each call may fail.
pub record Evp (C : Type 0) : Type 0 where
  pub new : Option C
  pub init : C → Option C
  pub update : C → Text → Option C
  pub final : C → Option (List ℕ)

-- A value, or the what() of a std::runtime_error.
pub data Result : Type 0 where
  ok : Text → Result
  error : Text → Result

-- The system under the bootloader: `exec` gives strerror(errno) where execvp returns.
pub data Forked : Type 0 where
  failed : Forked
  child : Forked
  parent : WaitStatus → Forked

pub record System (S : Type 0) : Type 0 where
  pub read : S → Text → Option Text
  pub system : S → Text → S
  pub fork : S → Forked
  pub exec : S → Text → Option Text

abbrev pub buffer_size : ℕ
buffer_size = 1024

module _ {C : Type 0} (evp : Evp C) where
  -- `while (file.good())` over the bytes that are left, with fuel: a read that does not fill the
  -- buffer is the last one.
  unfoldable pub update_all : ℕ → Text → C → Option C
  update_all zero rest c = none
  update_all (suc fuel) rest c = elim (evp.update c (take buffer_size rest)) [
    | none ↦ none
    | some c' ↦
        (let more = update_all fuel (drop buffer_size rest) c' in
          if ltb (length rest) buffer_size then some c' else more)
  ]

  abbrev pub finish : Option C → Result
  finish none = error (codes "Failed to update digest")
  finish (some c) = elim (evp.final c) [
    | none ↦ error (codes "Failed to finalize digest")
    | some hash ↦ ok (hex_dump hash)
  ]

  -- The file is opened after the context is made.
  unfoldable pub digest : Text → Option Text → C → Result
  digest path none c = error (codes "Could not open file: " ++ path)
  digest path (some content) c = finish (update_all (length content + 1) content c)

  unfoldable pub compute_sha256 : Text → Option Text → Result
  compute_sha256 path content = elim evp.new [
    | none ↦ error (codes "Failed to create EVP_MD_CTX")
    | some c ↦ elim (evp.init c) [
      | none ↦ error (codes "Failed to initialize digest context")
      | some c' ↦ digest path content c'
    ]
  ]

unfoldable pub read_sha256_file : Text → Option Text → Result
read_sha256_file path none = error (codes "Could not open file: " ++ path)
read_sha256_file path (some content) = ok (read_word [] (stream content)).0

-- What the integrity check says, and whether the kernel is started.
pub data Check : Type 0 where
  passed : Text → Check
  refused : Text → Check

abbrev pub integrity : Text
integrity =
    codes
      "KERNEL INTEGRITY CHECK FAIL: The stored hash and the kernel binary does not match. You may be loading a bad kernel binary."

abbrev pub report : Text → Text → Text
report color text = join (color ∷ text ∷ reset ∷ endl ∷ [])

-- The try block on what the two calls give; the second is made if the first does not throw.
unfoldable pub compare_hashes : Bool → Result → Result → Check
compare_hashes ignore (error what) expected = refused (report bold_red (codes "Error: " ++ what))
compare_hashes ignore (ok computed) (error what) =
    refused (report bold_red (codes "Error: " ++ what))
compare_hashes ignore (ok computed) (ok expected) =
    if text_eq computed expected
    then passed (report bold_green (codes "Kernel integrity check passed"))
    else if ignore
    then passed (report bold_yellow integrity)
    else refused (report bold_red (integrity ++ codes " Try rebuilding the system."))

-- The process ends with a status, or becomes the program that it executes.
pub data End (S : Type 0) : Type 0 where
  ends : ℕ → Text → S → End S
  becomes : Text → Text → S → End S

module _ {S : Type 0} (system : System S) where
  abbrev pub rule : Text
  rule = join (
      cyan
      ∷ codes "---------------------------------------------------------------------------"
      ∷ reset
      ∷ endl
      ∷ [])

  -- The child after the kernel could not be executed.
  unfoldable pub ask_kernel : Stream → Text → Text → S → End S
  ask_kernel input what out s =
      let (path, input') = read_word [] input in
      let asked =
        out
        ++ join (
            bold_yellow
            ∷ codes "Lunix Recovery\n"
            ∷ reset
            ∷ bold_yellow
            ∷ codes "Use keyboard to input and [ENTER].\n"
            ∷ reset
            ∷ rule
            ∷ bold_red
            ∷ codes "Failed to execute kernel: "
            ∷ what
            ∷ reset
            ∷ endl
            ∷ codes "Make sure the kernel is in the same directory as the bootloader"
            ∷ endl
            ∷ codes "Path to kernel: "
            ∷ []) in
      elim (system.exec s path) [
        | none ↦ becomes path asked s
        | some what' ↦
            ends 1 (asked ++ join (codes "Execution failed again: " ∷ what' ∷ endl ∷ rule ∷ [])) s
      ]

  unfoldable pub launch : Forked → Stream → Text → S → End S
  launch failed input out s = ends 1 (out ++ (codes "Fork failed" ++ endl)) s
  launch child input out s = elim (system.exec s (codes "./kernel.bin")) [
    | none ↦ becomes (codes "./kernel.bin") out s
    | some what ↦ ask_kernel input what out s
  ]
  launch (parent (exited status)) input out s =
      ends 0 (out ++ join (codes "Child exited with status: " ∷ decimal status ∷ endl ∷ [])) s
  launch (parent killed) input out s =
      ends 0 (out ++ (codes "Child process did not exit successfully" ++ endl)) s

  unfoldable pub after_check : Check → Stream → Text → S → End S
  after_check (refused text) input out s = ends 1 (out ++ text) s
  after_check (passed text) input out s = launch (system.fork s) input (out ++ text) s

module _ {S C : Type 0} (system : System S) (evp : Evp C) where
  unfoldable pub check_kernel : Bool → S → Check
  check_kernel ignore s =
      compare_hashes ignore
        (compute_sha256 evp (codes "kernel.bin") (system.read s (codes "kernel.bin")))
        (read_sha256_file (codes "kernel.bin.sha256") (system.read s (codes "kernel.bin.sha256")))

  abbrev pub recovery_text : Text
  recovery_text = join (
      bold_white
      ∷ codes "LUNIX BOOTLOADER (RECOVERY)"
      ∷ reset
      ∷ codes "\n\n"
      ∷ yellow
      ∷ codes
          "The system has crashed due to a panic or fatal error and rebooted. Kernel panic logs are stored in the rootfs folder.\n"
      ∷ codes "To start Lunix again, run ./lunix_bootloader\n\n"
      ∷ reset
      ∷ [])

  abbrev pub help_menu : Text
  help_menu = join (
      bold_white
      ∷ codes "LUNIX BOOTLOADER"
      ∷ reset
      ∷ codes "\n\n"
      ∷ codes "Bootloader arguments\n"
      ∷ codes "  -b          Run post build script\n"
      ∷ codes "  -r          Boot into recovery mode\n"
      ∷ codes "  -h --help   Show this help menu\n"
      ∷ [])

  -- main, after the options are read.
  unfoldable pub run_options : Options → Stream → S → End S
  run_options o input s =
      let title = join (
        bold_white ∷ codes "LUNIX BOOTLOADER (" ∷ o.mode ∷ codes ")" ∷ reset ∷ codes "\n\n" ∷ []) in
      let built = system.system s (codes "./post-build.sh") in
      let cleared = system.system s (codes "clear") in
      if o.run_post_build
      then after_check system (check_kernel o.ignore_hash_error built) input
          (title ++ (codes "Running post build script" ++ endl)) built
      else if o.recovery_mode
      then ends 0 (title ++ recovery_text) cleared
      else if o.help_mode
      then ends 0 (title ++ help_menu) cleared
      else after_check system (check_kernel o.ignore_hash_error s) input title s

  unfoldable pub boot_main : List Text → Stream → S → End S
  boot_main args input s = run_options (options args no_options) input s
