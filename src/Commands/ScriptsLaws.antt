-- ===== src/Commands/ScriptsLaws.antt =====
-- Which scripts `scripts_in` of bootguard/src/main.rs finds, and in which order.
use agenticlinux.Prelude.{
  ◌≡◌, refl, ◌∙◌, ap, sym, subst, Bool, true, false, List, [], ◌∷◌, ◌++◌, Option, none, some, ok,
  arith, All, ok_injective, if◌then◌else◌,
}
use agenticlinux.Text.{Text, equal, contains, any}
use agenticlinux.Text.Laws.{equal_iff}
use agenticlinux.Text.Order.{before}
use agenticlinux.Text.OrderLaws.{before_trans, before_total}
use agenticlinux.Machine.Monad.{Machine, bind_ok}
use agenticlinux.Machine.Fs.{
  IoResult, done, not_found, failed, read_dir, has_dir, names_in, dirs_in,
}
use agenticlinux.Machine.Helpers.{Host}
use agenticlinux.Sdboot.Files.{join}
use agenticlinux.Preflight.Same.{Same, Same-trans, read_dir-Same}
use agenticlinux.Commands.Scripts.{
  Scripts, insert_at, insert_script, insert_all, listed, add_dir, merged, only_executable, runnable,
  scripts_in,
}

-- The path under a name.
abbrev pub path_at : Text → Scripts → Option Text
path_at n [] = none
path_at n ((k, p) ∷ m) = if equal k n then some p else path_at n m

-- Each name stands before all the later ones.
abbrev pub IsSorted : Scripts → Type 0
IsSorted [] = Unit
IsSorted ((k, p) ∷ m) = All (λ (kv : Text × Text). before k kv.0 ≡ true) m × IsSorted m

-- What a directory holds, if it is one.
abbrev pub entries_of : Text → Machine → List Text
entries_of d w = if has_dir d w.dirs then names_in d w.files ++ dirs_in d w.dirs else []

-- The path of a name: in the last of the bases whose directory `sub` holds it, or else the given one.
abbrev pub winner : Machine → List Text → Text → Text → Option Text → Option Text
winner w [] sub n p = p
winner w (b ∷ bs) sub n p =
    winner w bs sub n
      (if contains (entries_of (join b sub) w) n then some (join (join b sub) n) else p)

insert_at-path :
    (n p k q : Text) (m rest : Scripts) (same less : Bool) (j : Text)
    → equal k n ≡ same
    → path_at j rest ≡ (if equal n j then some p else path_at j m)
    → path_at j (insert_at n p k q m rest same less)
      ≡ (if equal n j then some p else if equal k j then some q else path_at j m)
insert_at-path n p k q m rest true less j e h =
    ground (arith, e, equal_iff k n, equal_iff k j, equal_iff n j)
insert_at-path n p k q m rest false true j e h =
    ground (arith, e, h, equal_iff k n, equal_iff k j, equal_iff n j)
insert_at-path n p k q m rest false false j e h = refl

insert_script-path :
    (n p : Text) (m : Scripts) (j : Text)
    → path_at j (insert_script n p m) ≡ (if equal n j then some p else path_at j m)
unfolding insert_script
insert_script-path n p [] j = refl
insert_script-path n p ((k, q) ∷ m) j =
    insert_at-path n p k q m (insert_script n p m) (equal k n) (before k n) j refl
      (insert_script-path n p m j)

insert_all-path :
    (dir : Text) (ns : List Text) (m : Scripts) (j : Text)
    → path_at j (insert_all dir ns m) ≡ (if contains ns j then some (join dir j) else path_at j m)
unfolding insert_all contains any
insert_all-path dir [] m j = refl
insert_all-path dir (n ∷ ns) m j = ground (
  arith,
  insert_all-path dir ns (insert_script n (join dir n) m) j,
  insert_script-path n (join dir n) m j,
  equal_iff n j,
)

All-insert :
    (P : Text × Text → Type 0) (n p : Text) (m : Scripts)
    → P (n, p)
    → All P m
    → All P (insert_script n p m)
unfolding insert_script
All-insert P n p [] x h = (x, tt)
All-insert P n p ((k, q) ∷ m) x (y, h) =
    All-insert_at (equal k n) (before k n) (All-insert P n p m x h)
  where
    All-insert_at :
        (same less : Bool)
        → All P (insert_script n p m)
        → All P (insert_at n p k q m (insert_script n p m) same less)
    All-insert_at true less r = (x, h)
    All-insert_at false true r = (y, r)
    All-insert_at false false r = (x, (y, h))

-- Each name in the map stands behind `n`.
abbrev Behind : Text → Scripts → Type 0
Behind n m = All (λ (kv : Text × Text). before n kv.0 ≡ true) m

Behind-trans : (n k : Text) (m : Scripts) → before n k ≡ true → Behind k m → Behind n m
Behind-trans n k [] e h = tt
Behind-trans n k ((j, q) ∷ m) e (b, h) = (before_trans n k j e b, Behind-trans n k m e h)

insert_at-IsSorted :
    (n p k q : Text) (m rest : Scripts) (same less : Bool)
    → equal k n ≡ same
    → before k n ≡ less
    → IsSorted ((k, q) ∷ m)
    → (less ≡ true → Behind k rest)
    → IsSorted rest
    → IsSorted (insert_at n p k q m rest same less)
insert_at-IsSorted n p k q m rest true less e l (b, h) br hr =
    (subst (λ x. Behind x m) ((equal_iff k n).0 e) b, h)
insert_at-IsSorted n p k q m rest false true e l (b, h) br hr = (br refl, hr)
insert_at-IsSorted n p k q m rest false false e l (b, h) br hr =
    let first = before_total k n e l in ((first, Behind-trans n k m first b), (b, h))

insert_script-IsSorted : (n p : Text) (m : Scripts) → IsSorted m → IsSorted (insert_script n p m)
unfolding insert_script
insert_script-IsSorted n p [] h = (tt, tt)
insert_script-IsSorted n p ((k, q) ∷ m) (b, h) =
    insert_at-IsSorted n p k q m (insert_script n p m) (equal k n) (before k n) refl refl (b, h)
      (λ less. All-insert (λ (kv : Text × Text). before k kv.0 ≡ true) n p m less b)
      (insert_script-IsSorted n p m h)

insert_all-IsSorted :
    (dir : Text) (ns : List Text) (m : Scripts) → IsSorted m → IsSorted (insert_all dir ns m)
unfolding insert_all
insert_all-IsSorted dir [] m h = h
insert_all-IsSorted dir (n ∷ ns) m h =
    insert_all-IsSorted dir ns (insert_script n (join dir n) m)
      (insert_script-IsSorted n (join dir n) m h)

entries_done :
    (d : Text) (v : Machine) {ns : List Text} → (read_dir d v).0 ≡ done ns → entries_of d v ≡ ns
unfolding read_dir
entries_done d v e = ground (arith, e)

entries_not_found : (d : Text) (v : Machine) → (read_dir d v).0 ≡ not_found → entries_of d v ≡ []
unfolding read_dir
entries_not_found d v e = ground (arith, e)

entries_of-Same : (d : Text) (w v : Machine) → Same w v → entries_of d v ≡ entries_of d w
entries_of-Same d w v (f, g) = rw (f, g) refl

-- A directory that was added.
listed-path :
    (d : Text) (m : Scripts) (w v : Machine) (r : IoResult (List Text)) {m' : Scripts}
    → Same w v
    → (read_dir d v).0 ≡ r
    → listed d m r ≡ ok m'
    → (j : Text)
    → path_at j m' ≡ (if contains (entries_of d w) j then some (join d j) else path_at j m)
unfolding contains any
listed-path d m w v (done ns) s e o j =
    let names = sym (entries_of-Same d w v s) ∙ entries_done d v e in
    rw (names, sym (ok_injective o)) (insert_all-path d ns m j)
listed-path d m w v not_found s e o j =
    let names = sym (entries_of-Same d w v s) ∙ entries_not_found d v e in
    rw (names, sym (ok_injective o)) refl
listed-path d m w v (failed x) s e o j = cc

listed-IsSorted :
    (d : Text) (m : Scripts) (r : IoResult (List Text)) {m' : Scripts}
    → IsSorted m
    → listed d m r ≡ ok m'
    → IsSorted m'
listed-IsSorted d m (done ns) h o = subst IsSorted (ok_injective o) (insert_all-IsSorted d ns m h)
listed-IsSorted d m not_found h o = subst IsSorted (ok_injective o) h
listed-IsSorted d m (failed x) h o = cc

merged_lem :
    (w : Machine) (bases : List Text) (sub : Text) (m : Scripts) (v : Machine) {m' : Scripts}
    → Same w v
    → IsSorted m
    → (merged bases sub m v).0 ≡ ok m'
    → IsSorted m' × ((j : Text) → path_at j m' ≡ winner w bases sub j (path_at j m))
unfolding merged add_dir
merged_lem w [] sub m v s h e = (subst IsSorted (ok_injective e) h, λ j. rw (ok_injective e) refl)
merged_lem w (b ∷ bs) sub m v s h e =
    let d = join b sub in
    let (m1, added, e1, _) = bind_ok (add_dir d m) (merged bs sub) v e in
    let u = (add_dir d m v).1 in
    let (sorted, last) =
      merged_lem w bs sub m1 u (Same-trans w v u s (read_dir-Same d v))
        (listed-IsSorted d m (read_dir d v).0 h added) e1 in
    (
      sorted,
      λ j. last j ∙ ap (winner w bs sub j) (listed-path d m w v (read_dir d v).0 s refl added j),
    )

-- Scripts that were found are those of a map that is sorted by name, without the ones that are not
-- executable; the map has under each name the path in the last of the bases whose directory holds it,
-- and nothing else: so a later base overrides by name, and a file that is not executable masks.
pub scripts_in_lem :
    (h : Host) (bases : List Text) (sub : Text) (w : Machine) {found : List Text}
    → (scripts_in h bases sub w).0 ≡ ok found
    → (m : Scripts) × IsSorted m
      × ((j : Text) → path_at j m ≡ winner w bases sub j none)
      × (found ≡ only_executable h m (merged bases sub [] w).1)
unfolding scripts_in
scripts_in_lem h bases sub w e =
    let (m, found, e1, _) = bind_ok (merged bases sub []) (runnable h) w e in
    let (sorted, paths) = merged_lem w bases sub [] w (refl, refl) tt found in
    (m, sorted, paths, sym (ok_injective e1))
