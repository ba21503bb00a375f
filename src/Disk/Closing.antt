-- ===== src/Disk/Closing.antt =====
-- What the shell calls of the disk ends, and reads nothing of the input.
use lunix.Base.{arith}
use lunix.Base.Text.{Text}
use lunix.Stream.{Stream}
use lunix.Machine.{Host}
use lunix.Machine.Closing.{IsClosing, closing_rules}
use lunix.ErrorHandler.Closing.{panic-IsClosing, oops-IsClosing}
use lunix.Disk.{
  make_rootfs, funlink, frmdir_r, fchdir, fmkdir, fopenbin, load_mod, fcwd, create_directory, chdir,
  mount, list_modules,
}

module _ {S : Type 0} (host : Host S) (Q : Stream → Type 0) where
  pub funlink-IsClosing : (name : Text) → IsClosing Q (funlink host name)
  unfolding funlink
  funlink-IsClosing name = record { at = λ m h. ground arith }

  pub frmdir_r-IsClosing : (path : Text) → IsClosing Q (frmdir_r host path)
  unfolding frmdir_r
  frmdir_r-IsClosing path = record { at = λ m h. ground arith }

  pub fchdir-IsClosing : (path : Text) → IsClosing Q (fchdir host path)
  unfolding fchdir chdir
  fchdir-IsClosing path = record { at = λ m h. ground arith }

  pub fmkdir-IsClosing : (path : Text) → IsClosing Q (fmkdir host path)
  unfolding fmkdir create_directory
  fmkdir-IsClosing path = record { at = λ m h. ground arith }

  pub fopenbin-IsClosing : (binary : Text) → IsClosing Q (fopenbin host binary)
  unfolding fopenbin
  fopenbin-IsClosing binary = record { at = λ m h. ground arith }

  pub load_mod-IsClosing : (name : Text) → IsClosing Q (load_mod host name)
  unfolding load_mod
  load_mod-IsClosing name = record { at = λ m h. ground arith }

  pub fcwd-IsClosing : IsClosing Q (fcwd host)
  unfolding fcwd
  fcwd-IsClosing = search closing_rules

  create_directory-IsClosing : (path : Text) → IsClosing Q (create_directory host path)
  unfolding create_directory
  create_directory-IsClosing path = record { at = λ m h. ground arith }

  chdir-IsClosing : (path : Text) → IsClosing Q (chdir host path)
  unfolding chdir
  chdir-IsClosing path = record { at = λ m h. h }

  list_modules-IsClosing : (path : Text) → IsClosing Q (list_modules host path)
  unfolding list_modules
  list_modules-IsClosing path = record { at = λ m h. ground arith }

  pub mount-IsClosing : (path mod_path : Text) → IsClosing Q (mount host path mod_path)
  mount-IsClosing path mod_path =
      unfold mount in
      search
        (
          closing_rules, panic-IsClosing, oops-IsClosing, create_directory-IsClosing,
          chdir-IsClosing, list_modules-IsClosing,
        )
        depth 12

  pub make_rootfs-IsClosing : (path : Text) → IsClosing Q (make_rootfs host path)
  make_rootfs-IsClosing path =
      unfold make_rootfs in
      search (closing_rules, panic-IsClosing, create_directory-IsClosing) depth 9
