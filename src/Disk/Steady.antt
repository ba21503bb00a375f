-- ===== src/Disk/Steady.antt =====
-- What the shell calls of the disk leaves the user and the runlevels alone.
use lunix.Base.{arith}
use lunix.Base.Text.{Text}
use lunix.Machine.{Host}
use lunix.Machine.Steady.{IsSteady, steady_rules}
use lunix.Disk.{
  funlink, frmdir_r, fchdir, fmkdir, fopenbin, load_mod, fcwd, create_directory, chdir,
}

module _ {S : Type 0} (host : Host S) where
  pub funlink-IsSteady : (name : Text) → IsSteady (funlink host name)
  unfolding funlink
  funlink-IsSteady name = record { at = λ m. ground arith }

  pub frmdir_r-IsSteady : (path : Text) → IsSteady (frmdir_r host path)
  unfolding frmdir_r
  frmdir_r-IsSteady path = record { at = λ m. ground arith }

  pub fchdir-IsSteady : (path : Text) → IsSteady (fchdir host path)
  unfolding fchdir chdir
  fchdir-IsSteady path = record { at = λ m. ground arith }

  pub fmkdir-IsSteady : (path : Text) → IsSteady (fmkdir host path)
  unfolding fmkdir create_directory
  fmkdir-IsSteady path = record { at = λ m. ground arith }

  pub fopenbin-IsSteady : (binary : Text) → IsSteady (fopenbin host binary)
  unfolding fopenbin
  fopenbin-IsSteady binary = record { at = λ m. ground arith }

  pub load_mod-IsSteady : (name : Text) → IsSteady (load_mod host name)
  unfolding load_mod
  load_mod-IsSteady name = record { at = λ m. ground arith }

  pub fcwd-IsSteady : IsSteady (fcwd host)
  unfolding fcwd
  fcwd-IsSteady = search steady_rules
