-- ===== src/Kernel/Runlevel.antt =====
-- kernel::crl and crlrq, for the kernel of main and for the global `Kernel` of disk.cpp: they are
-- two objects, each with its runlevel.
use lunix.Base.{ℕ, [], ◌∷◌}
use lunix.Base.Text.{codes, join, endl}
use lunix.Base.Decimal.{decimal}
use lunix.Machine.{M, ◌>>◌, print, modify}

module _ {S : Type 0} where
  announce : ℕ → M S (Unit {0})
  announce rl = print (join (codes "Runlevel changed to " ∷ decimal rl ∷ endl ∷ []))

  -- crl of the kernel that main has made
  unfoldable pub boot_crl : ℕ → M S (Unit {0})
  unfolding announce
  boot_crl rl = do modify (λ m. record m { boot_runlevel = rl }); announce rl

  -- Kernel.crlrq
  unfoldable pub crlrq : ℕ → M S (Unit {0})
  unfolding announce
  crlrq rl = do modify (λ m. record m { runlevel = rl }); announce rl
