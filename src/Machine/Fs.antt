-- ===== src/Machine/Fs.antt =====
-- The file operations of std::fs. Each one takes the next fault, if there is one; it then fails, and
-- a write whose file was opened may have put down a part of its bytes.
use agenticlinux.Prelude.{
  Bool, true, false, ◌||◌, List, [], ◌∷◌, ◌++◌, Option, none, some, if◌then◌else◌, take, drop,
  length,
}
use agenticlinux.Text.{Text, codes, equal, strip_prefix, starts_with, has_char}
use agenticlinux.Utf8.{Bytes, from_utf8}
use agenticlinux.Machine.Monad.{Machine, Files, Fault}

-- `io::Result<T>`: the kind NotFound is told apart.
pub data IoResult {ℓ} (A : Type ℓ) : Type ℓ where
  done : A → IoResult A
  not_found : IoResult A
  failed : Text → IoResult A

-- `e.to_string()` of the error NotFound.
abbrev pub no_such_file : Text
no_such_file = codes "No such file or directory (os error 2)"

abbrev pub Fs {ℓ} : Type ℓ → Type ℓ
Fs A = Machine → IoResult A × Machine

unfoldable pub lookup : Text → Files → Option Bytes
lookup p [] = none
lookup p ((q, b) ∷ fs) = if equal q p then some b else lookup p fs

unfoldable pub insert : Text → Bytes → Files → Files
insert p b [] = (p, b) ∷ []
insert p b ((q, c) ∷ fs) = if equal q p then (p, b) ∷ fs else (q, c) ∷ insert p b fs

unfoldable pub erase : Text → Files → Files
erase p [] = []
erase p ((q, c) ∷ fs) = let rest = erase p fs in if equal q p then rest else (q, c) ∷ rest

-- The next fault, and the machine behind it.
abbrev pub next_fault : List (Option Fault) → Option Fault
next_fault [] = none
next_fault (f ∷ _) = f

abbrev pub later_faults : List (Option Fault) → List (Option Fault)
later_faults [] = []
later_faults (_ ∷ fs) = fs

abbrev pub tick : Machine → Machine
tick w = record w { faults = later_faults w.faults }

abbrev pub put : Text → Bytes → Machine → Machine
put p b w = record w { files = insert p b w.files }

abbrev found : Option Bytes → IoResult Bytes
found none = not_found
found (some b) = done b

abbrev read_at : Option Fault → Text → Machine → IoResult Bytes × Machine
read_at (some f) p w = (failed f.message, w)
read_at none p w = (found (lookup p w.files), w)

-- `fs::read`, `File::open` with `read_to_end`
unfoldable pub read : Text → Fs Bytes
unfolding lookup
read p w = read_at (next_fault w.faults) p (tick w)

abbrev pub if_utf8 : Option Text → IoResult Text
if_utf8 (some t) = done t
if_utf8 none = failed (codes "stream did not contain valid UTF-8")

abbrev pub as_text : IoResult Bytes → IoResult Text
as_text (done b) = if_utf8 (from_utf8 b)
as_text not_found = not_found
as_text (failed e) = failed e

-- `fs::read_to_string`
unfoldable pub read_to_string : Text → Fs Text
unfolding read from_utf8
read_to_string p w = let (r, w') = read p w in (as_text r, w')

abbrev write_at : Option Fault → Text → Bytes → Machine → IoResult (Unit {0}) × Machine
write_at (some f) p b w = (failed f.message, if f.opens then put p (take f.written b) w else w)
write_at none p b w = (done tt, put p b w)

-- `fs::write`: the file is emptied once it is open.
unfoldable pub write : Text → Bytes → Fs (Unit {0})
unfolding insert
write p b w = write_at (next_fault w.faults) p b (tick w)

-- New bytes laid over the first ones of the old.
unfoldable pub overwrite : Bytes → Bytes → Bytes
overwrite new old = new ++ drop (length new) old

abbrev overwrite_found :
    Option Fault → Text → Bytes → Option Bytes → Machine → IoResult (Unit {0}) × Machine
overwrite_found (some f) p b (some old) w =
    (failed f.message, put p (overwrite (take f.written b) old) w)
overwrite_found (some f) p b none w = (failed f.message, w)
overwrite_found none p b (some old) w = (done tt, put p (overwrite b old) w)
overwrite_found none p b none w = (not_found, w)

-- `OpenOptions::new().write(true).open(p)`, `write_all_at(b, 0)` and `sync_all`: no byte behind the
-- new ones changes.
unfoldable pub write_all_at : Text → Bytes → Fs (Unit {0})
unfolding insert lookup overwrite
write_all_at p b w = overwrite_found (next_fault w.faults) p b (lookup p w.files) (tick w)

abbrev appended : Option Bytes → Bytes → Bytes
appended none b = b
appended (some old) b = old ++ b

abbrev append_at : Option Fault → Text → Bytes → Machine → IoResult (Unit {0}) × Machine
append_at (some f) p b w = (
  failed f.message,
  if f.opens then put p (appended (lookup p w.files) (take f.written b)) w else w,
)
append_at none p b w = (done tt, put p (appended (lookup p w.files) b) w)

-- `OpenOptions::new().create(true).append(true).open(p)` and a write.
unfoldable pub append : Text → Bytes → Fs (Unit {0})
unfolding insert lookup
append p b w = append_at (next_fault w.faults) p b (tick w)

abbrev remove_found : Option Fault → Text → Option Bytes → Machine → IoResult (Unit {0}) × Machine
remove_found (some f) p _ w = (failed f.message, w)
remove_found none p none w = (not_found, w)
remove_found none p (some _) w = (done tt, record w { files = erase p w.files })

-- `fs::remove_file`
unfoldable pub remove_file : Text → Fs (Unit {0})
unfolding lookup erase
remove_file p w = remove_found (next_fault w.faults) p (lookup p w.files) (tick w)

abbrev rename_found :
    Option Fault → Text → Text → Option Bytes → Machine → IoResult (Unit {0}) × Machine
rename_found (some f) p q _ w = (failed f.message, w)
rename_found none p q none w = (not_found, w)
rename_found none p q (some b) w = (done tt, record w { files = insert q b (erase p w.files) })

-- `fs::rename(p, q)` of a file
unfoldable pub rename : Text → Text → Fs (Unit {0})
unfolding lookup erase insert
rename p q w = rename_found (next_fault w.faults) p q (lookup p w.files) (tick w)

unfoldable pub has_dir : Text → List Text → Bool
has_dir d [] = false
has_dir d (e ∷ ds) = equal e d || has_dir d ds

abbrev create_at : Option Fault → Text → Machine → IoResult (Unit {0}) × Machine
create_at (some f) d w = (failed f.message, w)
create_at none d w = (done tt, if has_dir d w.dirs then w else record w { dirs = d ∷ w.dirs })

-- `fs::create_dir_all`; the parents are left out of the model.
unfoldable pub create_dir_all : Text → Fs (Unit {0})
unfolding has_dir
create_dir_all d w = create_at (next_fault w.faults) d (tick w)

-- The name of a file directly in the directory.
abbrev name_in : Text → Text → Option Text
name_in d p = elim (strip_prefix p (d ++ b'/' ∷ [])) [
  | some n ↦ if has_char b'/' n then none else some n
  | none ↦ none
]

abbrev cons_name : Option Text → List Text → List Text
cons_name none ns = ns
cons_name (some n) ns = n ∷ ns

unfoldable pub names_in : Text → Files → List Text
names_in d [] = []
names_in d ((p, _) ∷ fs) = cons_name (name_in d p) (names_in d fs)

-- The names of the directories directly in the directory.
unfoldable pub dirs_in : Text → List Text → List Text
dirs_in d [] = []
dirs_in d (e ∷ ds) = cons_name (name_in d e) (dirs_in d ds)

abbrev not_listed : Option Bytes → IoResult (List Text)
not_listed none = not_found
not_listed (some _) = failed (codes "Not a directory (os error 20)")

abbrev list_at : Option Fault → Text → Machine → IoResult (List Text) × Machine
list_at (some f) d w = (failed f.message, w)
list_at none d w = (
  if has_dir d w.dirs
      then done (names_in d w.files ++ dirs_in d w.dirs)
      else not_listed (lookup d w.files),
  w,
)

-- `fs::read_dir`, with its entries read at once.
unfoldable pub read_dir : Text → Fs (List Text)
unfolding has_dir names_in dirs_in lookup
read_dir d w = list_at (next_fault w.faults) d (tick w)

-- `Path::exists`
unfoldable pub exists : Text → Machine → Bool
unfolding lookup has_dir
exists p w = elim (lookup p w.files) [ some _ ↦ true | none ↦ has_dir p w.dirs ]

abbrev exists_at : Option Fault → Text → Machine → Bool × Machine
exists_at (some f) p w = (false, w)
exists_at none p w = (exists p w, w)

-- `Path::exists` that may meet an error, which it takes for a missing path.
unfoldable pub path_exists : Text → Machine → Bool × Machine
unfolding exists
path_exists p w = exists_at (next_fault w.faults) p (tick w)

unfoldable pub erase_below : Text → Files → Files
erase_below d [] = []
erase_below d ((p, b) ∷ fs) =
    let rest = erase_below d fs in if starts_with p (d ++ b'/' ∷ []) then rest else (p, b) ∷ rest

unfoldable pub erase_dir : Text → List Text → List Text
erase_dir d [] = []
erase_dir d (e ∷ ds) =
    let rest = erase_dir d ds in
    if equal e d || starts_with e (d ++ b'/' ∷ []) then rest else e ∷ rest

abbrev remove_tree : Option Fault → Text → Machine → IoResult (Unit {0}) × Machine
remove_tree (some f) d w = (failed f.message, w)
remove_tree none d w =
    if has_dir d w.dirs
    then (done tt, record w { files = erase_below d w.files; dirs = erase_dir d w.dirs })
    else (not_found, w)

-- `fs::remove_dir_all`; on a fault nothing is removed.
unfoldable pub remove_dir_all : Text → Fs (Unit {0})
unfolding has_dir erase_below erase_dir
remove_dir_all d w = remove_tree (next_fault w.faults) d (tick w)
