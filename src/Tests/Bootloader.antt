-- ===== src/Tests/Bootloader.antt =====
-- A run of the bootloader, and instances of its theorems.
use mathlib.Core.List.{append_assoc}
use lunix.Base.{
  inr, ◌≡◌, refl, ◌++◌, ◌∷◌, [], none, some, sym, ap, Option, arith, length, if◌then◌else◌,
}
use lunix.Base.Text.{Text, codes, text_eq}
use lunix.Hex.{hex_dump}
use lunix.Stream.{stream, read_word}
use lunix.Bootloader.{
  digest, launch, compare_hashes, check_kernel, after_check, run_options, Evp, System, child,
  becomes, boot_main, options, no_options, compute_sha256, read_sha256_file, update_all,
}
use lunix.Bootloader.Digest.{EvpLaws, update_all-update}
use lunix.Bootloader.Missing.{Fails, boot_main-Fails}
use lunix.Bootloader.Verified.{IsProgram, built, IsVerified, boot_main-IsVerified}

-- A digest of one byte, the length of what was read.
abbrev length_evp : Evp Text
length_evp = record {
  new = some [];
  init = λ c. some c;
  update = λ c s. some (c ++ s);
  final = λ c. some (length c ∷ []);
}

length_evp-EvpLaws : EvpLaws length_evp
length_evp-EvpLaws = record {
  update-append = λ c a b. ap {B = Option Text} some (sym (append_assoc c a b));
}

abbrev Files : Type 0
Files = Text → Option Text

abbrev installed : Files
installed name =
    if text_eq name (codes "kernel.bin")
    then some (codes "code")
    else if text_eq name (codes "kernel.bin.sha256")
    then some (codes "04  kernel.bin\n")
    else none

abbrev one_machine : System Files
one_machine = record {
  read = λ s name. s name;
  system = λ s command. s;
  fork = λ s. child;
  exec = λ s path. none;
}

starts :
    (t : Text) × (boot_main one_machine length_evp (codes "-b" ∷ []) (stream []) installed
      ≡ becomes (codes "./kernel.bin") t installed)
unfolding boot_main run_options options after_check check_kernel compare_hashes launch
    compute_sha256 read_sha256_file digest update_all hex_dump read_word
starts = (_, refl)

boot_main-IsVerified_example :
    IsVerified one_machine length_evp
      (built one_machine (options (codes "-b" ∷ []) no_options) installed)
    × IsProgram (stream []) (codes "./kernel.bin")
boot_main-IsVerified_example =
    boot_main-IsVerified one_machine length_evp (codes "-b" ∷ []) (stream []) (codes "./kernel.bin")
      starts.0 installed installed (refl, tt) starts.1

update_all-update_example :
    update_all length_evp 5 (codes "code") [] ≡ length_evp.update [] (codes "code")
update_all-update_example =
    update_all-update length_evp length_evp-EvpLaws 5 (codes "code") [] (omega arith)

abbrev no_hash : Files
no_hash name = if text_eq name (codes "kernel.bin") then some (codes "code") else none

boot_main-Fails_example :
    Fails one_machine length_evp no_hash
      (boot_main one_machine length_evp (codes "--ignore-hash-err" ∷ []) (stream []) no_hash)
unfolding options
boot_main-Fails_example =
    boot_main-Fails one_machine length_evp (codes "--ignore-hash-err" ∷ []) (stream []) no_hash
      (inr (refl, refl)) (inr refl)
