-- ===== src/Preflight/TextFiles.antt =====
-- The kernel arguments and the fstabs that `run` of bootguard/src/preflight.rs reads.
use agenticlinux.Prelude.{
  ◌≡◌, refl, ◌∙◌, ap, subst, Bool, true, false, List, [], ◌∷◌, ◌++◌, map, Result, ok, err, ◌⊎◌, inl,
  inr, All,
}
use agenticlinux.Text.{Text, codes, contains, any}
use agenticlinux.Machine.Monad.{Machine}
use agenticlinux.Machine.Fs.{IoResult, done, not_found, failed, read_dir, read_to_string, exists}
use agenticlinux.Machine.FileLaws.{message_of_ok}
use agenticlinux.Machine.Helpers.{or_message, read_or_empty}
use agenticlinux.Sdboot.Files.{join}
use agenticlinux.Preflight.Findings.{fatal, fatal_messages}
use agenticlinux.Preflight.Specs.{check_kargs, check_fstab}
use agenticlinux.Text.Split.{lines}
use agenticlinux.Preflight.Devices.{RootIs}
use agenticlinux.Preflight.Entries.{Needs}
use agenticlinux.Preflight.SpecLaws.{Exist, check_kargs_iff, check_fstab_iff}
use agenticlinux.Preflight.Kargs.{parse_kargs_toml}
use agenticlinux.Preflight.InitramfsLaws.{Clean, only-Clean, Clean-append}
use agenticlinux.Preflight.Same.{
  Same, Same-trans, exists-Same, read_dir-Same, read_to_string-Same, read_or_empty-Same,
}
use agenticlinux.Preflight.Run.{
  prefixed, fatal_at, judged_args, parsed, unseen, fstab_messages, check_fstabs, check_args_of,
  args_if, check_args, is_toml, listed, kernel_args,
}
use agenticlinux.Bootc.Commands.{System}

-- Every device that an entry of the file at the path needs exists; where the file is missing it is empty.
abbrev pub GoodFstab : Machine → Text → Type 0
GoodFstab w p =
    (t : Text) × (u : Machine) × Same w u
    × ((read_or_empty p u).0 ≡ ok t)
    × All (Exist (λ q. exists q w) Needs) (lines t)

exists-Same_all :
    (w u : Machine) → Same w u → ◌≡◌ {A = Text → Bool} (λ q. exists q u) (λ q. exists q w)
exists-Same_all w u s = λ i q. exists-Same q w u s i

fatals-Clean : (ms : List Text) → Clean (map fatal ms) → ms ≡ []
unfolding fatal_messages
fatals-Clean [] c = refl
fatals-Clean (m ∷ ms) c = cc c

fatals_at-Clean : (path : Text) (ms : List Text) → Clean (map (fatal_at path) ms) → ms ≡ []
unfolding fatal_messages
fatals_at-Clean path [] c = refl
fatals_at-Clean path (m ∷ ms) c = cc c

unseen_none : (ms : List Text) → (unseen [] ms).0 ≡ [] → ms ≡ []
unfolding unseen contains any
unseen_none [] e = refl
unseen_none (m ∷ ms) e = cc e

map_none : (f : Text → Text) (ms : List Text) → map f ms ≡ [] → ms ≡ []
map_none f [] e = refl
map_none f (m ∷ ms) e = cc e

messages_none :
    (p : Text) (w u : Machine) (r : Result Text)
    → Same w u
    → fstab_messages p u r ≡ []
    → (t : Text) × (r ≡ ok t) × All (Exist (λ q. exists q w) Needs) (lines t)
messages_none p w u (err e) s none_at_all = cc
messages_none p w u (ok t) s none_at_all = (
  t,
  refl,
  (check_fstab_iff (λ q. exists q w) t).0 (
      subst (λ (f : Text → Bool). check_fstab f t ≡ []) (exists-Same_all w u s)
        (map_none (prefixed p) _ none_at_all)),
)

unseen_nil : (unseen [] []).1 ≡ []
unfolding unseen
unseen_nil = refl

pub check_fstabs-Good :
    (w : Machine) (ps : List Text) (u : Machine)
    → Same w u
    → Clean (check_fstabs [] ps u).0
    → All (GoodFstab w) ps
unfolding check_fstabs
check_fstabs-Good w [] u s c = tt
check_fstabs-Good w (p ∷ ps) u s c =
    let v = (read_or_empty p u).1 in
    let here = Same-trans w u v s (read_or_empty-Same p u) in
    let ms = fstab_messages p v (read_or_empty p u).0 in
    let (first, later) = Clean-append (map fatal (unseen [] ms).0) _ c in
    let nothing = unseen_none ms (fatals-Clean (unseen [] ms).0 first) in
    let (t, read, good) = messages_none p w v (read_or_empty p u).0 here nothing in
    let all_unseen = ap (λ l. (unseen [] l).1) nothing ∙ unseen_nil in
    (
      (t, u, s, read, good),
      check_fstabs-Good w ps v here (subst (λ l. Clean (check_fstabs l ps v).0) all_unseen later),
    )

args_none :
    (path : Text) (w u : Machine) (r : Result (List Text))
    → Same w u
    → Clean (judged_args path u r)
    → (k : List Text) × (r ≡ ok k) × All (Exist (λ q. exists q w) RootIs) k
args_none path w u (err e) s c = absurd (only-Clean _ c)
args_none path w u (ok k) s c = (
  k,
  refl,
  (check_kargs_iff (λ q. exists q w) k).0 (
      subst (λ (f : Text → Bool). check_kargs f k ≡ []) (exists-Same_all w u s)
        (fatals_at-Clean path _ c)),
)

module _ (sys : System) where
  parsed_ok :
      (r : IoResult Text) {k : List Text}
      → parsed sys.from_toml sys.arch (or_message r (λ e. codes "cannot read: " ++ e)) ≡ ok k
      → (t : Text) × (r ≡ done t) × (parse_kargs_toml sys.from_toml t sys.arch ≡ ok k)
  parsed_ok (done t) e = (t, refl, message_of_ok (parse_kargs_toml sys.from_toml t sys.arch) _ e)
  parsed_ok not_found e = cc
  parsed_ok (failed m) e = cc

  -- Every device that a `root=` argument in the file names exists, if the file is one that bootc reads.
  abbrev pub GoodArgs : Machine → Text → Text → Type 0
  GoodArgs w kdir n =
      is_toml n ≡ true
      → (t : Text) × (k : List Text) × (u : Machine) × Same w u
        × ((read_to_string (join kdir n) u).0 ≡ done t)
        × (parse_kargs_toml sys.from_toml t sys.arch ≡ ok k)
        × All (Exist (λ q. exists q w) RootIs) k

  check_args_of-Good :
      (w : Machine) (kdir n : Text) (u : Machine)
      → Same w u
      → Clean (check_args_of sys (join kdir n) u).0
      → GoodArgs w kdir n
  unfolding check_args_of
  check_args_of-Good w kdir n u s c is_read =
      let v = (read_to_string (join kdir n) u).1 in
      let (k, found, good) =
        args_none (join kdir n) w v _ (Same-trans w u v s (read_to_string-Same (join kdir n) u))
          c in
      let (t, read, parse) = parsed_ok (read_to_string (join kdir n) u).0 found in
      (t, k, u, s, read, parse, good)

  pub check_args_of-Same : (p : Text) (w : Machine) → Same w (check_args_of sys p w).1
  unfolding check_args_of
  check_args_of-Same p w = read_to_string-Same p w

  args_if-Good :
      (w : Machine) (kdir n : Text) (ns : List Text) (toml : Bool) (u : Machine)
      → Same w u
      → is_toml n ≡ toml
      → ((v : Machine) → Same w v → Clean (check_args sys kdir ns v).0 → All (GoodArgs w kdir) ns)
      → Clean (args_if sys (check_args_of sys (join kdir n)) (check_args sys kdir ns) toml u).0
      → All (GoodArgs w kdir) (n ∷ ns)
  args_if-Good w kdir n ns true u s e rest c =
      let v = (check_args_of sys (join kdir n) u).1 in
      let (here, later) =
        Clean-append (check_args_of sys (join kdir n) u).0 (check_args sys kdir ns v).0 c in
      (
        check_args_of-Good w kdir n u s here,
        rest v (Same-trans w u v s (check_args_of-Same (join kdir n) u)) later,
      )
  args_if-Good w kdir n ns false u s e rest c = ((λ toml. absurd (cc (toml, e))), rest u s c)

  check_args-Good :
      (w : Machine) (kdir : Text) (ns : List Text) (u : Machine)
      → Same w u
      → Clean (check_args sys kdir ns u).0
      → All (GoodArgs w kdir) ns
  unfolding check_args
  check_args-Good w kdir [] u s c = tt
  check_args-Good w kdir (n ∷ ns) u s c =
      args_if-Good w kdir n ns (is_toml n) u s refl (check_args-Good w kdir ns) c

  -- The directory is missing, or all its files are good.
  abbrev pub GoodArgsDir : Machine → Text → Type 0
  GoodArgsDir w kdir =
      (u : Machine) × Same w u
      × (((read_dir kdir u).0 ≡ not_found)
          ⊎ ((ns : List Text) × ((read_dir kdir u).0 ≡ done ns) × All (GoodArgs w kdir) ns))

  listed-Good :
      (w : Machine) (kdir : Text) (r : IoResult (List Text)) (v : Machine)
      → Same w v
      → Clean ((listed kdir r).1 ++ (check_args sys kdir (listed kdir r).0 v).0)
      → (r ≡ not_found) ⊎ ((ns : List Text) × (r ≡ done ns) × All (GoodArgs w kdir) ns)
  listed-Good w kdir (done ns) v s c = inr (ns, refl, check_args-Good w kdir ns v s c)
  listed-Good w kdir not_found v s c = inl refl
  listed-Good w kdir (failed e) v s c =
      absurd (only-Clean _ (Clean-append (listed kdir (failed e)).1 _ c).0)

  pub kernel_args-Good :
      (w : Machine) (kdir : Text) (u : Machine)
      → Same w u
      → Clean (kernel_args sys kdir u).0
      → GoodArgsDir w kdir
  unfolding kernel_args
  kernel_args-Good w kdir u s c =
      let v = (read_dir kdir u).1 in
      (u, s, listed-Good w kdir (read_dir kdir u).0 v (Same-trans w u v s (read_dir-Same kdir u)) c)
