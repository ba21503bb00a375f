-- ===== src/Tests/Kernel.antt =====
-- Runs of the error handler and of the disk, and instances of their theorems.
use lunix.Base.{
  zero, suc, drop, take, leb, ℕ, Bool, ◌≡◌, refl, ◌&&◌, ◌∷◌, [], ◌++◌, List, true, false, not, some,
  arith, length, ◌↔◌, if◌then◌else◌,
}
use lunix.Base.Text.{Text, codes}
use lunix.Base.Int.{pos, negsuc}
use lunix.Stream.Lines.{lines}
use lunix.Security.{is_root}
use lunix.Machine.{returns, Machine, exits}
use lunix.Machine.Ends.{Returns, Finishes}
use lunix.ErrorHandler.Oops.{oopses, oopses-exits}
use lunix.Disk.{protected_files, contains, funlink, rootfs}
use lunix.Disk.Guard.{funlink-cases}
use lunix.Disk.Streams.{Fstream, FstreamLaws, fopen}
use lunix.Disk.Mount.{rootfs-Finishes}
use lunix.Tests.Host.{Files, put, no_files, files_host, machine}

abbrev quiet : Machine Files
quiet = machine no_files []

abbrev three : List Text
three = codes "a" ∷ codes "b" ∷ codes "c" ∷ []

abbrev worn : Machine Files
worn = record quiet { oops_count = 6 }

oopses-exits_example :
    (n k : Machine Files) × (oopses files_host three worn ≡ returns tt n)
    × (n.oops_count ≡ 9)
    × (oopses files_host (three ++ codes "d" ∷ codes "e" ∷ []) worn ≡ exits 1 k)
oopses-exits_example = oopses-exits files_host three (codes "e" ∷ []) (codes "d") worn refl

funlink-cases_example :
    let refused = contains protected_files (codes ".passwd") && not (is_root quiet.users) in
    Returns
      (λ r n.
        ((r ≡ negsuc 0) ↔ (refused ≡ true))
        × ((r ≡ pos 0)
            ↔ ((refused ≡ false) × ((files_host.remove quiet.files (codes ".passwd")).0 ≡ true)))
        × (n.files ≡ (
            if refused then quiet.files else (files_host.remove quiet.files (codes ".passwd")).1)))
      (funlink files_host (codes ".passwd") quiet)
funlink-cases_example = funlink-cases files_host (codes ".passwd") quiet

abbrev outside : Machine Files
outside = machine (put no_files (codes "/tmp/x.py") (some [])) []

rootfs-Finishes_example : Finishes (rootfs files_host 2 (machine no_files (codes "what?\ny\n")))
rootfs-Finishes_example =
    rootfs-Finishes files_host 2 (codes "what?\ny\n") (machine no_files (codes "what?\ny\n")) refl
      refl (unfold lines in refl) (unfold lines in omega arith)

-- A stream as whether it is open and what is still to be read, on a single file.
abbrev text_stream : Fstream (Bool × Text) Text (Unit {0})
text_stream = record {
  is_open = λ f. f.0;
  open_ = λ f name mode s. if f.0 then (f, s) else ((true, s), s);
  close = λ f s. ((false, []), s);
  read = λ f n s. (leb n (length f.1), take n f.1, (f.0, drop n f.1), s);
  write = λ f t s. (true, f, s ++ t);
}

length-take : (n : ℕ) (s : Text) → leb n (length s) ≡ true → length (take n s) ≡ n
length-take zero s h = refl
length-take (suc n) [] h = ground (arith, h)
length-take (suc n) (c ∷ s) h = ground (arith, h, length-take n s)

text_stream_laws : FstreamLaws text_stream
text_stream_laws = record {
  open-is_open = λ f name mode s e. rw e (refl, refl);
  close-is_open = λ f s. refl;
  length-read = λ f size s h. length-take size f.1 h;
}

fopen_runs :
    fopen text_stream (codes "f") tt (false, []) (codes "ab")
    ≡ (pos 0, (true, codes "ab"), codes "ab")
unfolding fopen
fopen_runs = refl
