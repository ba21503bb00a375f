-- ===== src/Disk/Programs.antt =====
-- disk::fopenbin and loadMod: which program runs, and what its status means.
use lunix.Base.{◌≡◌, ◌↔◌, if◌then◌else◌, ◌&&◌, ◌∷◌, [], ◌++◌, true, arith}
use lunix.Base.Text.{Text, codes}
use lunix.Base.Int.{pos}
use lunix.Machine.{Machine, Host, waited, exited, returns, put_files}
use lunix.Machine.Ends.{Returns}
use lunix.Disk.{append_path, fopenbin, load_mod}

-- The file of a module whose name is a slash and `name`.
abbrev pub absolute_path : Text → Text
absolute_path name = (b'/' ∷ name) ++ codes ".py"

module _ {S : Type 0} (host : Host S) where
  -- fopenbin returns, with 0 exactly when the program ran and exited with status 0.
  fopenbin-zero :
      (binary : Text) (m : Machine S)
      → Returns
          (λ r n.
            ((r ≡ pos 0) ↔ ((host.spawn m.files (binary ∷ [])).0 ≡ waited (exited 0)))
            × (n.files ≡ (host.spawn m.files (binary ∷ [])).1))
          (fopenbin host binary m)
  unfolding fopenbin
  fopenbin-zero binary m = ground arith

  -- The path of a module, as loadMod puts it together.
  abbrev pub module_path : Machine S → Text → Text
  module_path m name =
      append_path (append_path m.rootfs_absolute_path (codes "modules")) (name ++ codes ".py")

  -- loadMod always returns. The result is 0 exactly when the module is there as a regular file and
  -- python3, run with its path, exits with status 0; where it is not there, nothing is run.
  load_mod-zero :
      (name : Text) (m : Machine S)
      → let path = module_path m name in
        let there = host.exists m.files path && host.is_regular_file m.files path in
        let child = host.spawn m.files (codes "python3" ∷ path ∷ []) in
        Returns
          (λ r n.
            ((r ≡ pos 0) ↔ ((there ≡ true) × (child.0 ≡ waited (exited 0))))
            × (n.files ≡ (if there then child.1 else m.files)))
          (load_mod host name m)
  unfolding load_mod
  load_mod-zero name m = ground arith

  -- A module name that begins with a slash is not looked for in the modules directory of the root
  -- file system: where that file is a regular one and python3 exits with status 0, loadMod has
  -- run it.
  load_mod_absolute :
      (name : Text) (m : Machine S)
      → host.exists m.files (absolute_path name) ≡ true
      → host.is_regular_file m.files (absolute_path name) ≡ true
      → (host.spawn m.files (codes "python3" ∷ absolute_path name ∷ [])).0 ≡ waited (exited 0)
      → load_mod host (b'/' ∷ name) m
        ≡ returns
            (pos 0)
            (put_files (host.spawn m.files (codes "python3" ∷ absolute_path name ∷ [])).1 m)
  unfolding load_mod
  load_mod_absolute name m there regular runs = ground arith
