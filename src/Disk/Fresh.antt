-- ===== src/Disk/Fresh.antt =====
-- disk::rootfs where there is no root file system yet, and it is wanted.
use lunix.Base.{ap, arith, [], ℕ, suc, ◌≡◌, refl, ◌∙◌, true, false, ◌++◌, ◌∷◌, some}
use lunix.Base.Text.{Text, codes}
use lunix.Stream.{Stream, stream, newline, getline}
use lunix.Stream.Lines.{getline-line}
use lunix.Machine.{Host, Machine}
use lunix.Machine.Ends.{Arrives, Holds, Returns, Returns-continue}
use lunix.Disk.{rootfs, mount, make_rootfs, chdir, create_directory}
use lunix.Disk.There.{rootfs_path, modules_path}

module _ {S : Type 0} (host : Host S) where
  -- There is no root file system and no directory of modules; both can be made, in the files `made`
  -- and `installed`, and the first can be entered.
  pub record IsFresh (s : S) : Type 0 where
    pub made : S
    pub installed : S
    pub missing : host.exists s (rootfs_path host s) ≡ false
    pub makes : host.create_directory s (rootfs_path host s) ≡ some (true, made)
    pub entered : (host.chdir made (rootfs_path host s)).0 ≡ true
    pub no_modules :
        host.exists (host.chdir made (rootfs_path host s)).1 (modules_path host s) ≡ false
    pub makes_modules :
        host.create_directory (host.chdir made (rootfs_path host s)).1 (modules_path host s)
        ≡ some (true, installed)

  create_directory-some :
      (path : Text) (t : S) (m : Machine S)
      → host.create_directory m.files path ≡ some (true, t)
      → Returns (λ made n. (made ≡ true) × Holds t m.input n) (create_directory host path m)
  unfolding create_directory
  create_directory-some path t m made =
      rw (create_directory, made) (refl, record { files = refl; typed = refl })

  make_rootfs-Arrives :
      (path : Text) (t : S) (m : Machine S)
      → host.create_directory m.files path ≡ some (true, t)
      → Arrives t m.input (make_rootfs host path m)
  unfolding make_rootfs
  make_rootfs-Arrives path t m made =
      Returns-continue (λ made n. (made ≡ true) × Holds t m.input n) _ _ _
        (create_directory-some path t _ made)
        (λ done n h. rw h.0 (record { files = h.1.files; typed = h.1.typed }))

  mount-Arrives :
      (path mod_path : Text) (s t : S) (input : Stream) (m : Machine S)
      → (host.chdir s path).0 ≡ true
      → host.exists (host.chdir s path).1 mod_path ≡ false
      → host.create_directory (host.chdir s path).1 mod_path ≡ some (true, t)
      → Holds s input m
      → Arrives t input (mount host path mod_path m)
  unfolding mount chdir
  mount-Arrives path mod_path s t input m entered missing made here =
      rw (here.files, entered, missing)
        (Returns-continue (λ made n. (made ≡ true) × Holds t m.input n) _ _ _
          (create_directory-some mod_path t _ made)
          (λ done n h. rw h.0 (record { files = h.1.files; typed = h.1.typed ∙ here.typed })))

  -- Who answers with "y" gets one.
  pub rootfs-fresh :
      (fuel : ℕ) (rest : Text) (m : Machine S) (fresh : IsFresh m.files)
      → m.input ≡ stream (codes "y" ++ newline ∷ rest)
      → Arrives fresh.installed (stream rest) (rootfs host (suc fuel) m)
  unfolding rootfs
  rootfs-fresh fuel rest m fresh typed =
      let read : getline newline [] m.input ≡ (codes "y", stream rest) =
        ap (getline newline []) typed ∙ getline-line [] (codes "y") rest (omega arith) in
      rw (fresh.missing, read)
        (Returns-continue (λ a. Holds fresh.made (stream rest)) _ _ _
          (make_rootfs-Arrives (rootfs_path host m.files) fresh.made _ fresh.makes)
          (λ a n here.
            mount-Arrives (rootfs_path host m.files) (modules_path host m.files) fresh.made
              fresh.installed (stream rest) n fresh.entered fresh.no_modules fresh.makes_modules
              here))
