-- ===== src/Disk/There.antt =====
-- disk::rootfs where the root file system is there.
use lunix.Base.{ℕ, suc, ◌≡◌, refl, true, List, some}
use lunix.Base.Text.{Text, codes}
use lunix.Machine.{Entry, Host, Machine}
use lunix.Machine.Ends.{Arrives}
use lunix.Disk.{append_path, rootfs, mount, chdir, list_modules}

module _ {S : Type 0} (host : Host S) where
  abbrev pub rootfs_path : S → Text
  rootfs_path s = host.absolute s (codes "rootfs")

  abbrev pub modules_path : S → Text
  modules_path s = append_path (rootfs_path s) (codes "modules")

  -- The files behind the change to the root file system.
  abbrev pub mounted : S → S
  mounted s = (host.chdir s (rootfs_path s)).1

  -- The root file system is there, with its modules, and can be entered.
  pub record IsThere (s : S) : Type 0 where
    pub there : host.exists s (rootfs_path s) ≡ true
    pub entered : (host.chdir s (rootfs_path s)).0 ≡ true
    pub modules : host.exists (mounted s) (modules_path s) ≡ true
    pub entries : List Entry
    pub listed : host.directory_iterator (mounted s) (modules_path s) ≡ some entries

  list_modules-Arrives :
      (path : Text) (entries : List Entry) (m : Machine S)
      → host.directory_iterator m.files path ≡ some entries
      → Arrives m.files m.input (list_modules host path m)
  unfolding list_modules
  list_modules-Arrives path entries m listed =
      rw (list_modules, listed) (record { files = refl; typed = refl })

  -- rootfs then asks for nothing.
  pub rootfs-Arrives :
      (fuel : ℕ) (m : Machine S)
      → IsThere m.files
      → Arrives (mounted m.files) m.input (rootfs host (suc fuel) m)
  unfolding rootfs mount chdir
  rootfs-Arrives fuel m can =
      rw (can.there, can.entered, can.modules) (list_modules-Arrives _ can.entries _ can.listed)
