-- ===== src/Preflight/RunLaws.antt =====
-- What a deployment's tree has that `run` of bootguard/src/preflight.rs finds nothing fatal in.
use agenticlinux.Prelude.{◌≡◌, refl, Bool, true, false, List, [], ◌∷◌, All}
use agenticlinux.Text.{Text, codes}
use agenticlinux.Machine.Monad.{Machine}
use agenticlinux.Machine.Fs.{read_dir, has_dir}
use agenticlinux.Machine.Helpers.{Host}
use agenticlinux.Sdboot.Files.{join}
use agenticlinux.Preflight.Resolve.{resolve_beneath, found_tool, missing_tool, check_tool}
use agenticlinux.Preflight.InitramfsLaws.{Clean, only-Clean, Clean-append}
use agenticlinux.Preflight.Same.{Same, Same-trans, read_dir-Same}
use agenticlinux.Preflight.KernelDirs.{
  GoodDir, Seen, kernels_in, check_images-Same, check_kernels-Good,
}
use agenticlinux.Preflight.TextFiles.{
  GoodFstab, GoodArgsDir, check_args_of-Same, check_fstabs-Good, kernel_args-Good,
}
use agenticlinux.Preflight.Initramfs.{Checks}
use agenticlinux.Preflight.Run.{
  subdirs, check_images, next_kernel, check_kernels, kernels, check_args_of, args_if, check_args,
  is_toml, listed, kernel_args, check_fstabs, fstabs, run_in, run,
}
use agenticlinux.Bootc.Commands.{System}

next_kernel-Same :
    (h : Host) (next : Bool → Checks) (d : Text) (found there : Bool) (w : Machine)
    → ((b : Bool) (v : Machine) → Same v (next b v).1)
    → Same w (next_kernel h next d found there w).1
unfolding next_kernel
next_kernel-Same h next d found true w rest =
    let v = (check_images h d w).1 in
    Same-trans w v (next true v).1 (check_images-Same h d w) (rest true v)
next_kernel-Same h next d found false w rest = rest found w

check_kernels-Same :
    (h : Host) (ds : List Text) (found : Bool) (w : Machine) → Same w (check_kernels h ds found w).1
unfolding check_kernels
check_kernels-Same h [] true w = (refl, refl)
check_kernels-Same h [] false w = (refl, refl)
check_kernels-Same h (d ∷ ds) found w =
    next_kernel-Same h (check_kernels h ds) d found _ w (check_kernels-Same h ds)

subdirs-Same : (d : Text) (w : Machine) → Same w (subdirs d w).1
unfolding subdirs
subdirs-Same d w = read_dir-Same d w

kernels-Same : (h : Host) (deploy : Text) (w : Machine) → Same w (kernels h deploy w).1
unfolding kernels
kernels-Same h deploy w =
    let dir = join deploy (codes "usr/lib/modules") in
    let v = (subdirs dir w).1 in
    Same-trans w v (kernels h deploy w).1 (subdirs-Same dir w)
      (check_kernels-Same h (subdirs dir w).0 false v)

module _ (sys : System) where
  args_if-Same :
      (check rest : Checks) (toml : Bool) (w : Machine)
      → Same w (check w).1
      → ((v : Machine) → Same v (rest v).1)
      → Same w (args_if sys check rest toml w).1
  args_if-Same check rest true w s later =
      Same-trans w (check w).1 (rest (check w).1).1 s (later (check w).1)
  args_if-Same check rest false w s later = later w

  check_args-Same :
      (kdir : Text) (ns : List Text) (w : Machine) → Same w (check_args sys kdir ns w).1
  unfolding check_args
  check_args-Same kdir [] w = (refl, refl)
  check_args-Same kdir (n ∷ ns) w =
      args_if-Same (check_args_of sys (join kdir n)) (check_args sys kdir ns) (is_toml n) w
        (check_args_of-Same sys (join kdir n) w) (check_args-Same kdir ns)

  kernel_args-Same : (kdir : Text) (w : Machine) → Same w (kernel_args sys kdir w).1
  unfolding kernel_args
  kernel_args-Same kdir w =
      let v = (read_dir kdir w).1 in
      Same-trans w v (kernel_args sys kdir w).1 (read_dir-Same kdir w)
        (check_args-Same kdir (listed kdir (read_dir kdir w).0).0 v)

  -- The tree of a deployment passes: it is a directory; every directory of kernel modules that has a
  -- kernel has a good one and a good initramfs, and there is such a one; the kernel arguments and the
  -- fstabs name devices that exist; and the tool is an executable file beneath the tree.
  pub record Passes (deploy tool : Text) (etc : List Text) (w : Machine) : Type 0 where
    pub is_dir : has_dir deploy w.dirs ≡ true
    pub good_kernels :
        All (GoodDir sys.host w) (subdirs (join deploy (codes "usr/lib/modules")) w).0
    pub has_kernel :
        kernels_in sys.host w (subdirs (join deploy (codes "usr/lib/modules")) w).0 ≡ true
    pub good_args : GoodArgsDir sys w (join deploy (codes "usr/lib/bootc/kargs.d"))
    pub good_fstabs : All (GoodFstab w) (fstabs deploy etc)
    pub has_tool :
        found_tool sys.host
          (resolve_beneath sys.host deploy tool (run sys deploy tool etc w).1)
          (run sys deploy tool etc w).1
        ≡ true

  missing_tool-found : (tool : Text) (b : Bool) → Clean (missing_tool tool b) → b ≡ true
  missing_tool-found tool true c = refl
  missing_tool-found tool false c = absurd (only-Clean _ c)

  abbrev Parts : Text → Text → List Text → Bool → Machine → Type 0
  Parts deploy tool etc there w =
      (there ≡ true)
      × All (GoodDir sys.host w) (subdirs (join deploy (codes "usr/lib/modules")) w).0
      × (kernels_in sys.host w (subdirs (join deploy (codes "usr/lib/modules")) w).0 ≡ true)
      × GoodArgsDir sys w (join deploy (codes "usr/lib/bootc/kargs.d"))
      × All (GoodFstab w) (fstabs deploy etc)
      × (found_tool sys.host
            (resolve_beneath sys.host deploy tool (run_in sys deploy tool etc there w).1)
            (run_in sys deploy tool etc there w).1
          ≡ true)

  kernels-Good :
      (deploy : Text) (w : Machine)
      → Clean (kernels sys.host deploy w).0
      → Seen sys.host w (subdirs (join deploy (codes "usr/lib/modules")) w).0 false
  unfolding kernels
  kernels-Good deploy w c =
      let dir = join deploy (codes "usr/lib/modules") in
      check_kernels-Good sys.host w (subdirs dir w).0 false (subdirs dir w).1 (subdirs-Same dir w) c

  tool-Good :
      (deploy tool : Text) (w : Machine)
      → Clean (check_tool sys.host deploy tool w)
      → found_tool sys.host (resolve_beneath sys.host deploy tool w) w ≡ true
  unfolding check_tool
  tool-Good deploy tool w c = missing_tool-found tool _ c

  run_in-Parts :
      (deploy tool : Text) (etc : List Text) (there : Bool) (w : Machine)
      → Clean (run_in sys deploy tool etc there w).0
      → Parts deploy tool etc there w
  unfolding run_in
  run_in-Parts deploy tool etc false w c = absurd (only-Clean _ c)
  run_in-Parts deploy tool etc true w c =
      let kdir = join deploy (codes "usr/lib/bootc/kargs.d") in
      let w1 = (kernels sys.host deploy w).1 in
      let w2 = (kernel_args sys kdir w1).1 in
      let w3 = (check_fstabs [] (fstabs deploy etc) w2).1 in
      let s1 = kernels-Same sys.host deploy w in
      let s2 = Same-trans w w1 w2 s1 (kernel_args-Same kdir w1) in
      let (c1, rest1) = Clean-append (kernels sys.host deploy w).0 _ c in
      let (c2, rest2) = Clean-append (kernel_args sys kdir w1).0 _ rest1 in
      let (c3, c4) = Clean-append (check_fstabs [] (fstabs deploy etc) w2).0 _ rest2 in
      let (dirs, some_kernel) = kernels-Good deploy w c1 in
      (
        refl,
        dirs,
        some_kernel,
        kernel_args-Good sys w kdir w1 s1 c2,
        check_fstabs-Good w (fstabs deploy etc) w2 s2 c3,
        tool-Good deploy tool w3 c4,
      )

-- A deployment in whose tree `run` finds nothing fatal passes: its tree is a directory; every
-- directory of kernel modules that has a kernel has one that passes its check and an initramfs that
-- passes its own, and there is one at least; every file of kernel arguments could be read, and every
-- device that a `root=` among them names exists; every fstab could be read or is missing, and the
-- device of every entry exists that has no option nofail, noauto, bind or rbind and no type of a
-- network, pseudo or FUSE filesystem; and the tool is found, as an executable file beneath the tree.
pub run-Passes :
    (sys : System) (deploy tool : Text) (etc : List Text) (w : Machine)
    → Clean (run sys deploy tool etc w).0
    → Passes sys deploy tool etc w
unfolding run
run-Passes sys deploy tool etc w c =
    let (there, dirs, some_kernel, args, tabs, found) =
      run_in-Parts sys deploy tool etc (has_dir deploy w.dirs) w c in
    record {
      is_dir = there;
      good_kernels = dirs;
      has_kernel = some_kernel;
      good_args = args;
      good_fstabs = tabs;
      has_tool = found;
    }
