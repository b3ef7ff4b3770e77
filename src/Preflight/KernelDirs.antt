-- ===== src/Preflight/KernelDirs.antt =====
-- The loop of `run` of bootguard/src/preflight.rs over the directories of kernel modules.
use agenticlinux.Prelude.{
  ℕ, ◌≤◌, ◌≡◌, ◌∙◌, refl, ap, sym, subst, Bool, true, false, ◌||◌, List, [], ◌∷◌, some, Result, ok,
  err, length, take, arith, All,
}
use agenticlinux.Text.{Text, codes, any}
use agenticlinux.Utf8.{Bytes}
use agenticlinux.Machine.Monad.{Machine, Files}
use agenticlinux.Machine.Fs.{IoResult, done, not_found, failed, lookup, read, exists}
use agenticlinux.Machine.FileLaws.{read_done}
use agenticlinux.Machine.Helpers.{Host}
use agenticlinux.Sdboot.Files.{join}
use agenticlinux.Preflight.Kernel.{check_kernel}
use agenticlinux.Preflight.Initramfs.{head_of, read_head}
use agenticlinux.Preflight.Same.{Same, Same-trans, read-Same, exists-Same, check_initramfs-Same}
use agenticlinux.Preflight.InitramfsLaws.{
  Clean, only-Clean, Clean-append, GoodImage, check_initramfs-Good,
}
use agenticlinux.Preflight.Run.{
  kernel_verdict, judge_kernel, kernel_image, initramfs_if, initramfs_image, check_images,
  next_kernel, check_kernels,
}

-- The kernel image at the path passes its check, by its first 64 KiB and its size.
abbrev pub GoodKernel : Text → Files → Type 0
GoodKernel vm fs =
    (b : Bytes) × (lookup vm fs ≡ some b) × (check_kernel (take 65536 b) (length b) ≡ ok tt)

abbrev pub GoodInitramfs : Host → Text → Files → Type 0
GoodInitramfs h ir fs =
    (b : Bytes) × (v : Machine) × (lookup ir fs ≡ some b)
    × (1024 ≤ length b)
    × GoodImage h (record { content = b; fault = h.read_fault ir v }) v

abbrev pub kernel_of : Text → Text
kernel_of d = join d (codes "vmlinuz")

abbrev pub initramfs_of : Text → Text
initramfs_of d = join d (codes "initramfs.img")

-- If the directory has a kernel, both images are good.
abbrev pub GoodDir : Host → Machine → Text → Type 0
GoodDir h w d =
    exists (kernel_of d) w ≡ true
    → GoodKernel (kernel_of d) w.files × GoodInitramfs h (initramfs_of d) w.files

or_true : (b : Bool) → (b || true) ≡ true
or_true true = refl
or_true false = refl

module _ (h : Host) where
  head_of_ok :
      (path : Text) (n : ℕ) (r : IoResult Bytes) (v : Machine) {head : Bytes} {size : ℕ}
      → head_of h path n r v ≡ ok (head, size)
      → (b : Bytes) × (r ≡ done b) × (head ≡ take n b) × (size ≡ length b)
  unfolding head_of
  head_of_ok path n (done b) v e = (b, refl, ground (arith, e), ground (arith, e))
  head_of_ok path n not_found v e = cc
  head_of_ok path n (failed m) v e = cc

  verdict-Good : (vm : Text) (r : Result (Unit {0})) → Clean (kernel_verdict vm r) → r ≡ ok tt
  verdict-Good vm (ok _) c = refl
  verdict-Good vm (err e) c = absurd (only-Clean _ c)

  judged_read-Good :
      (vm : Text) (r : Result (Bytes × ℕ))
      → Clean (judge_kernel vm r)
      → (head : Bytes) × (size : ℕ) × (r ≡ ok (head, size)) × (check_kernel head size ≡ ok tt)
  unfolding judge_kernel
  judged_read-Good vm (ok (head, size)) c =
      (head, size, refl, verdict-Good vm (check_kernel head size) c)
  judged_read-Good vm (err e) c = absurd (only-Clean _ c)

  kernel_image-Good :
      (vm : Text) (w : Machine) → Clean (kernel_image h vm w).0 → GoodKernel vm w.files
  unfolding kernel_image read_head
  kernel_image-Good vm w c =
      let (head, size, e, passed) = judged_read-Good vm (read_head h vm 65536 w).0 c in
      let (b, r, first, all) = head_of_ok vm 65536 (read vm w).0 (read vm w).1 e in
      (
        b,
        read_done vm w r,
        sym (ap (λ x. check_kernel x size) first ∙ ap (check_kernel (take 65536 b)) all) ∙ passed,
      )

  kernel_image-Same : (vm : Text) (w : Machine) → Same w (kernel_image h vm w).1
  unfolding kernel_image read_head
  kernel_image-Same vm w = read-Same vm w

  initramfs_if-Good :
      (ir : Text) (there : Bool) (w : Machine)
      → Clean (initramfs_if h ir there w).0
      → GoodInitramfs h ir w.files
  unfolding initramfs_if
  initramfs_if-Good ir true w c = check_initramfs-Good h ir w c
  initramfs_if-Good ir false w c = absurd (only-Clean _ c)

  initramfs_if-Same :
      (ir : Text) (there : Bool) (w : Machine) → Same w (initramfs_if h ir there w).1
  unfolding initramfs_if
  initramfs_if-Same ir true w = check_initramfs-Same h ir w
  initramfs_if-Same ir false w = (refl, refl)

  initramfs_image-Good :
      (ir : Text) (w : Machine) → Clean (initramfs_image h ir w).0 → GoodInitramfs h ir w.files
  unfolding initramfs_image
  initramfs_image-Good ir w c = initramfs_if-Good ir (exists ir w) w c

  initramfs_image-Same : (ir : Text) (w : Machine) → Same w (initramfs_image h ir w).1
  unfolding initramfs_image
  initramfs_image-Same ir w = initramfs_if-Same ir (exists ir w) w

  pub check_images-Same : (d : Text) (w : Machine) → Same w (check_images h d w).1
  check_images-Same d w =
      let v = (kernel_image h (kernel_of d) w).1 in
      Same-trans w v (check_images h d w).1 (kernel_image-Same (kernel_of d) w)
        (initramfs_image-Same (initramfs_of d) v)

  check_images-Good :
      (d : Text) (w : Machine)
      → Clean (check_images h d w).0
      → GoodKernel (kernel_of d) w.files × GoodInitramfs h (initramfs_of d) w.files
  check_images-Good d w c =
      let v = (kernel_image h (kernel_of d) w).1 in
      let (k, i) =
        Clean-append (kernel_image h (kernel_of d) w).0 (initramfs_image h (initramfs_of d) v).0
          c in
      (
        kernel_image-Good (kernel_of d) w k,
        subst (GoodInitramfs h (initramfs_of d)) (kernel_image-Same (kernel_of d) w).0
            (initramfs_image-Good (initramfs_of d) v i),
      )

  abbrev pub kernels_in : Machine → List Text → Bool
  kernels_in w ds = any (λ d. exists (kernel_of d) w) ds

  -- What the loop has seen to, from a machine with the same files and directories as `w`.
  abbrev pub Seen : Machine → List Text → Bool → Type 0
  Seen w ds found = All (GoodDir h w) ds × ((found || kernels_in w ds) ≡ true)

  next_kernel-Good :
      (w : Machine) (d : Text) (ds : List Text) (found there : Bool) (v : Machine)
      → Same w v
      → exists (kernel_of d) w ≡ there
      → ((found' : Bool) (u : Machine)
          → Same w u
          → Clean (check_kernels h ds found' u).0
          → Seen w ds found')
      → Clean (next_kernel h (check_kernels h ds) d found there v).0
      → Seen w (d ∷ ds) found
  unfolding next_kernel any
  next_kernel-Good w d ds found true v s e rest c =
      let u = (check_images h d v).1 in
      let (here, later) = Clean-append (check_images h d v).0 (check_kernels h ds true u).0 c in
      let (all_good, _) = rest true u (Same-trans w v u s (check_images-Same d v)) later in
      let (k, i) = check_images-Good d v here in
      (
        (
          λ _. (
            subst (GoodKernel (kernel_of d)) s.0 k,
            subst (GoodInitramfs h (initramfs_of d)) s.0 i,
          ),
          all_good,
        ),
        rw e (or_true found),
      )
  next_kernel-Good w d ds found false v s e rest c =
      let (all_good, some_kernel) = rest found v s c in
      ((λ there. absurd (cc (there, e)), all_good), rw e some_kernel)

  pub check_kernels-Good :
      (w : Machine) (ds : List Text) (found : Bool) (v : Machine)
      → Same w v
      → Clean (check_kernels h ds found v).0
      → Seen w ds found
  unfolding check_kernels any
  check_kernels-Good w [] true v s c = (tt, refl)
  check_kernels-Good w [] false v s c = absurd (only-Clean _ c)
  check_kernels-Good w (d ∷ ds) found v s c =
      next_kernel-Good w d ds found (exists (kernel_of d) v) v s
        (sym (exists-Same (kernel_of d) w v s)) (check_kernels-Good w ds) c
