-- ===== src/Disk/Guard.antt =====
-- What disk::funlink and frmdir_r do to the files, and under which user.
use lunix.Base.{◌∙◌, ltb, ap, suc, some, ℕ, ◌≡◌, ◌↔◌, if◌then◌else◌, not, ◌&&◌, true, false, arith}
use lunix.Base.Text.{Text}
use lunix.Base.Int.{pos, negsuc}
use lunix.Security.{is_root}
use lunix.Machine.{continue, Machine, Host}
use lunix.Machine.Ends.{Returns}
use lunix.Disk.{pure, put_files, returns, frmdir_r, remove_all, protected_files, contains, funlink}

module _ {S : Type 0} (host : Host S) where
  -- funlink always returns. It refuses exactly a protected name under a user who is not root, and
  -- then leaves the files alone; otherwise the files are those that remove leaves, and the result
  -- is 0 exactly when remove succeeded.
  pub funlink-cases :
      (name : Text) (m : Machine S)
      → let refused = contains protected_files name && not (is_root m.users) in
        Returns
          (λ r n.
            ((r ≡ negsuc 0) ↔ (refused ≡ true))
            × ((r ≡ pos 0) ↔ ((refused ≡ false) × ((host.remove m.files name).0 ≡ true)))
            × (n.files ≡ (if refused then m.files else (host.remove m.files name).1)))
          (funlink host name m)
  unfolding funlink
  funlink-cases name m = ground arith

  remove_all-some :
      (count : ℕ) (path : Text) (t : S) (m : Machine S)
      → host.remove_all m.files path ≡ some (count, t)
      → remove_all host path m ≡ returns count (put_files t m)
  unfolding remove_all
  remove_all-some count path t m removed = rw (remove_all, removed)

  -- frmdir_r does not ask for the user: what is there goes.
  pub frmdir_r-some :
      (count : ℕ) (path : Text) (t : S) (m : Machine S)
      → host.remove_all m.files path ≡ some (suc count, t)
      → frmdir_r host path m ≡ returns (pos 0) (put_files t m)
  unfolding frmdir_r
  frmdir_r-some count path t m removed =
      ap (λ r. continue r (λ count. pure (if ltb 0 count then pos 0 else pos 1)))
        (remove_all-some (suc count) path t m removed)
      ∙ ground arith
