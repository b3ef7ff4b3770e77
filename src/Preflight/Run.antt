-- ===== src/Preflight/Run.antt =====
-- `run` of bootguard/src/preflight.rs, part by part: the kernels and their initramfs, the kernel
-- arguments, the fstabs, and the tool.
use agenticlinux.Prelude.{
  ℕ, Bool, true, false, ◌&&◌, List, [], ◌∷◌, ◌++◌, map, Result, ok, err, ltb, if◌then◌else◌, length,
}
use agenticlinux.Text.{Text, codes, ends_with, contains}
use agenticlinux.Text.Order.{sort}
use agenticlinux.Utf8.{Bytes}
use agenticlinux.Machine.Monad.{Machine}
use agenticlinux.Machine.Fs.{
  IoResult, done, not_found, failed, read_dir, read_to_string, exists, has_dir,
}
use agenticlinux.Machine.Helpers.{Host, or_message, message_of, read_or_empty}
use agenticlinux.Sdboot.Files.{join}
use agenticlinux.Preflight.Findings.{Finding, fatal}
use agenticlinux.Preflight.Kernel.{check_kernel}
use agenticlinux.Preflight.Specs.{check_kargs, check_fstab}
use agenticlinux.Preflight.Kargs.{KargsFile, parse_kargs_toml}
use agenticlinux.Preflight.Resolve.{check_tool}
use agenticlinux.Preflight.Initramfs.{Checks, only, check_initramfs, read_head}
use agenticlinux.Bootc.Commands.{System}

-- One check after the other.
abbrev pub both : Checks → Checks → Checks
both f g w = let (fs, w1) = f w in let (gs, w2) = g w1 in (fs ++ gs, w2)

abbrev pub prefixed : Text → Text → Text
prefixed path m = path ++ (codes ": " ++ m)

unfoldable pub only_dirs : Text → List Text → Machine → List Text
only_dirs dir [] w = []
only_dirs dir (n ∷ ns) w =
    let rest = only_dirs dir ns w in if has_dir (join dir n) w.dirs then join dir n ∷ rest else rest

abbrev pub dirs_of : Text → IoResult (List Text) → Machine → List Text
dirs_of dir (done ns) w = sort (only_dirs dir ns w)
dirs_of dir not_found w = []
dirs_of dir (failed e) w = []

unfoldable pub subdirs : Text → Machine → List Text × Machine
unfolding sort only_dirs read_dir
subdirs dir w = let (r, w') = read_dir dir w in (dirs_of dir r w', w')

abbrev pub kernel_verdict : Text → Result (Unit {0}) → List Finding
kernel_verdict vm (ok _) = []
kernel_verdict vm (err e) = only (codes "kernel " ++ prefixed vm e)

-- What is wrong with a kernel, by its head and its size.
unfoldable pub judge_kernel : Text → Result (Bytes × ℕ) → List Finding
judge_kernel vm (err e) = only (codes "kernel " ++ prefixed vm e)
judge_kernel vm (ok (head, size)) = kernel_verdict vm (check_kernel head size)

module _ (h : Host) where
  unfoldable pub kernel_image : Text → Checks
  kernel_image vm w = let (r, w') = read_head h vm 65536 w in (judge_kernel vm r, w')

  unfoldable pub initramfs_if : Text → Bool → Checks
  initramfs_if ir true w = check_initramfs h ir w
  initramfs_if ir false w = (only (ir ++ codes " is missing"), w)

  unfoldable pub initramfs_image : Text → Checks
  initramfs_image ir w = initramfs_if ir (exists ir w) w

  abbrev pub check_images : Text → Checks
  check_images d =
      both (kernel_image (join d (codes "vmlinuz")))
        (initramfs_image (join d (codes "initramfs.img")))

  -- The loop over the directories of modules; and was there a kernel in one?
  unfoldable pub next_kernel : (Bool → Checks) → Text → Bool → Bool → Checks
  next_kernel next d found true = both (check_images d) (next true)
  next_kernel next d found false = next found

  unfoldable pub check_kernels : List Text → Bool → Checks
  check_kernels [] true w = ([], w)
  check_kernels [] false w = (only (codes "no kernel found under usr/lib/modules"), w)
  check_kernels (d ∷ ds) found w =
      next_kernel (check_kernels ds) d found (exists (join d (codes "vmlinuz")) w) w

  unfoldable pub kernels : Text → Checks
  kernels deploy w =
      let (ds, w') = subdirs (join deploy (codes "usr/lib/modules")) w in check_kernels ds false w'

-- `p.extension().is_some_and(|x| x == "toml")` for the name of a file.
unfoldable pub is_toml : Text → Bool
is_toml name = ends_with name (codes ".toml") && ltb 5 (length name)

abbrev pub listed : Text → IoResult (List Text) → List Text × List Finding
listed kdir (done ns) = (ns, [])
listed kdir not_found = ([], [])
listed kdir (failed e) = ([], only (prefixed kdir (codes "cannot read: " ++ e)))

abbrev pub fatal_at : Text → Text → Finding
fatal_at path m = fatal (prefixed path m)

abbrev pub judged_args : Text → Machine → Result (List Text) → List Finding
judged_args path w (ok k) = map (fatal_at path) (check_kargs (λ p. exists p w) k)
judged_args path w (err e) = only (prefixed path e)

abbrev pub parsed : (Text → Result KargsFile) → Text → Result Text → Result (List Text)
parsed from_toml arch (err e) = err e
parsed from_toml arch (ok t) =
    message_of (λ e. codes "invalid TOML: " ++ e) (parse_kargs_toml from_toml t arch)

-- The new messages, each one once, and all that were seen.
unfoldable pub unseen : List Text → List Text → List Text × List Text
unseen seen [] = ([], seen)
unseen seen (m ∷ ms) =
    let (new, all) = unseen (if contains seen m then seen else m ∷ seen) ms in
    (if contains seen m then new else m ∷ new, all)

abbrev pub fstab_messages : Text → Machine → Result Text → List Text
fstab_messages path w (ok t) = map (prefixed path) (check_fstab (λ p. exists p w) t)
fstab_messages path w (err e) = e ∷ []

unfoldable pub check_fstabs : List Text → List Text → Checks
unfolding read_or_empty unseen
check_fstabs seen [] w = ([], w)
check_fstabs seen (p ∷ ps) w =
    let (r, w1) = read_or_empty p w in
    let (new, all) = unseen seen (fstab_messages p w1 r) in
    let (later, w2) = check_fstabs all ps w1 in (map fatal new ++ later, w2)

abbrev in_etc : Text → Text
in_etc d = join d (codes "fstab")

-- Every fstab that will apply.
unfoldable pub fstabs : Text → List Text → List Text
fstabs deploy extra_etc =
    join deploy (codes "etc/fstab")
    ∷ codes "/etc/fstab"
    ∷ join deploy (codes "usr/etc/fstab")
    ∷ map in_etc extra_etc

module _ (sys : System) where
  unfoldable pub check_args_of : Text → Checks
  check_args_of path w =
      let (r, w') = read_to_string path w in
      (
        judged_args path w'
            (parsed sys.from_toml sys.arch (or_message r (λ e. codes "cannot read: " ++ e))),
        w',
      )

  abbrev pub args_if : Checks → Checks → Bool → Checks
  args_if check rest true w = both check rest w
  args_if check rest false w = rest w

  unfoldable pub check_args : Text → List Text → Checks
  check_args kdir [] w = ([], w)
  check_args kdir (n ∷ ns) w =
      args_if (check_args_of (join kdir n)) (check_args kdir ns) (is_toml n) w

  -- The files of kargs.d: a missing directory is fine, one that cannot be read is fatal.
  unfoldable pub kernel_args : Text → Checks
  kernel_args kdir w =
      let (r, w1) = read_dir kdir w in
      let (ns, fs) = listed kdir r in let (gs, w2) = check_args kdir ns w1 in (fs ++ gs, w2)

  abbrev pub tool_check : Text → Text → Checks
  tool_check deploy tool w = (check_tool sys.host deploy tool w, w)

  unfoldable pub run_in : Text → Text → List Text → Bool → Checks
  run_in deploy tool extra_etc false w =
      (only (codes "staged deployment " ++ (deploy ++ codes " not found")), w)
  run_in deploy tool extra_etc true w =
      both (kernels sys.host deploy)
        (both (kernel_args (join deploy (codes "usr/lib/bootc/kargs.d")))
          (both (check_fstabs [] (fstabs deploy extra_etc)) (tool_check deploy tool)))
        w

  -- Every check of the tree of a deployment; `extra_etc` are further directories like /etc.
  unfoldable pub run : Text → Text → List Text → Checks
  run deploy tool extra_etc w = run_in deploy tool extra_etc (has_dir deploy w.dirs) w
