-- ===== src/Sdboot/Found.antt =====
-- `find_entry` and `rename` of bootguard/src/sdboot.rs: the entry that is found, and where it goes.
use agenticlinux.Prelude.{
  ◌≡◌, refl, ◌∙◌, ap, sym, subst, inl, inr, Bool, true, false, List, [], ◌∷◌, Option, none, some,
  ok, Option-cases, some_injective, ok_injective,
}
use agenticlinux.Text.{Text, codes, equal, ends_with}
use agenticlinux.Text.Laws.{equal_iff, equal_refl}
use agenticlinux.Utf8.{Bytes, from_utf8}
use agenticlinux.Machine.Monad.{Machine, Files, Io, bind_ok, bind_holds}
use agenticlinux.Machine.Fs.{done, lookup, erase, read_to_string, read_dir, rename, next_fault}
use agenticlinux.Machine.FileLaws.{
  lookup-insert, or_message_ok, read_to_string_done, read_to_string_files,
}
use agenticlinux.Machine.Helpers.{Host, map_err, acquire, release}
use agenticlinux.Machine.Keeps.{LeavesAlone, acquire-Keeps, release-Keeps}
use agenticlinux.Sdboot.{conf, entry_verity}
use agenticlinux.Sdboot.Files.{
  join, is_verity, this_or, read_or, search, find_entry, rename_unless, rename_entry,
  cannot_read_in,
}

-- In the directory stands an entry of that name, and it boots that composefs id.
pub record EntryAt (dir verity : Text) (fs : Files) (name : Text) : Type 0 where
  pub bytes : Bytes
  pub text : Text
  pub stands : lookup (join dir name) fs ≡ some bytes
  pub reads : from_utf8 bytes ≡ some text
  pub boots : entry_verity text ≡ some verity

is_verity-true : (o : Option Text) (v : Text) → is_verity o v ≡ true → o ≡ some v
is_verity-true none v h = cc
is_verity-true (some u) v h = ap some ((equal_iff u v).0 h)

module _ (dir verity : Text) where
  this_or-EntryAt :
      (name : Text) (rest : Io (Option Text)) (b : Bool) (fs : Files) (w : Machine) {n : Text}
      → (b ≡ true → EntryAt dir verity fs name)
      → ((rest w).0 ≡ ok (some n) → EntryAt dir verity fs n)
      → (this_or name rest b w).0 ≡ ok (some n)
      → EntryAt dir verity fs n
  unfolding this_or
  this_or-EntryAt name rest true fs w here later h =
      subst (EntryAt dir verity fs) (some_injective (ok_injective h)) (here refl)
  this_or-EntryAt name rest false fs w here later h = later h

  read_or-EntryAt :
      (name : Text) (rest : Io (Option Text)) (b : Bool) (w : Machine) {n : Text}
      → ((v : Machine)
          → v.files ≡ w.files
          → (rest v).0 ≡ ok (some n)
          → EntryAt dir verity w.files n)
      → (read_or dir verity name rest b w).0 ≡ ok (some n)
      → EntryAt dir verity w.files n
  unfolding read_or
  read_or-EntryAt name rest false w later h = later w refl h
  read_or-EntryAt name rest true w later h =
      let path = join dir name in
      let (text, r, h1, _) = bind_ok (map_err (read_to_string path) (cannot_read_in path)) _ w h in
      let (bytes, stands, reads) =
        read_to_string_done path w (or_message_ok (read_to_string path w).0 _ r) in
      this_or-EntryAt name rest (is_verity (entry_verity text) verity) w.files
        (read_to_string path w).1
        (λ same. record {
          bytes = bytes;
          text = text;
          stands = stands;
          reads = reads;
          boots = is_verity-true (entry_verity text) verity same;
        })
        (later (read_to_string path w).1 (read_to_string_files path w)) h1

  search-EntryAt :
      (names : List Text) (w : Machine) {n : Text}
      → (search dir verity names w).0 ≡ ok (some n)
      → EntryAt dir verity w.files n
  unfolding search
  search-EntryAt [] w h = cc
  search-EntryAt (name ∷ names) w {n = n} h =
      read_or-EntryAt name (search dir verity names) (ends_with name conf) w
        (λ v same r. subst (λ fs. EntryAt dir verity fs n) same (search-EntryAt names v r)) h

this_or_files :
    (name : Text) (rest : Io (Option Text)) (b : Bool) (w v : Machine)
    → v.files ≡ w.files
    → ((x : Machine) → x.files ≡ w.files → (rest x).1.files ≡ w.files)
    → (this_or name rest b v).1.files ≡ w.files
unfolding this_or
this_or_files name rest true w v e later = e
this_or_files name rest false w v e later = later v e

read_or_files :
    (dir verity name : Text) (rest : Io (Option Text)) (b : Bool) (w : Machine)
    → ((x : Machine) → x.files ≡ w.files → (rest x).1.files ≡ w.files)
    → (read_or dir verity name rest b w).1.files ≡ w.files
unfolding read_or
read_or_files dir verity name rest false w later = later w refl
read_or_files dir verity name rest true w later =
    let path = join dir name in
    let start = read_to_string_files path w in
    bind_holds (λ x. x.files ≡ w.files) (map_err (read_to_string path) (cannot_read_in path)) _ w
      start
      (λ text _.
        this_or_files name rest (is_verity (entry_verity text) verity) w (read_to_string path w).1
          start later)

search_files :
    (dir verity : Text) (names : List Text) (w : Machine)
    → (search dir verity names w).1.files ≡ w.files
unfolding search
search_files dir verity [] w = refl
search_files dir verity (name ∷ names) w =
    read_or_files dir verity name (search dir verity names) (ends_with name conf) w
      (λ x e. search_files dir verity names x ∙ e)

pub find_entry-EntryAt :
    (dir verity : Text) (w : Machine) {n : Text}
    → (find_entry dir verity w).0 ≡ ok (some n)
    → EntryAt dir verity (find_entry dir verity w).1.files n
unfolding find_entry
find_entry-EntryAt dir verity w {n = n} h =
    let (names, _, h1, m) = bind_ok (map_err (read_dir dir) (cannot_read_in dir)) _ w h in
    let v = (read_dir dir w).1 in
    subst (λ fs. EntryAt dir verity fs n)
      (sym (search_files dir verity names v) ∙ ap (λ (x : Machine). x.files) (sym m))
      (search-EntryAt dir verity names v h1)

pub rename_done :
    (p q : Text) (w : Machine) {b : Bytes}
    → lookup p w.files ≡ some b
    → (rename p q w).0 ≡ done tt
    → lookup q (rename p q w).1.files ≡ some b
unfolding rename
rename_done p q w {b = b} e h = elim (Option-cases (next_fault w.faults)) [
  | inl n ↦ rw (n, e) (lookup-insert q q b (erase p w.files) ∙ rw equal_refl refl)
  | inr (f, n) ↦ cc (rw n at h)
]

module _ (h : Host) (mount : (p : Text) → LeavesAlone h (codes "mount") p) (dir verity : Text) where
  moved-EntryAt :
      (old new : Text) (w : Machine) (b : Bool)
      → (b ≡ true → old ≡ new)
      → EntryAt dir verity w.files old
      → (rename_unless h dir old new b w).0 ≡ ok tt
      → EntryAt dir verity (rename_unless h dir old new b w).1.files new
  unfolding rename_unless
  moved-EntryAt old new w true same at_old e = subst (EntryAt dir verity w.files) (same refl) at_old
  moved-EntryAt old new w false same at_old e =
      let p = join dir old in
      let q = join dir new in
      let move = map_err (rename p q) _ in
      let (ro, _, e1, m) =
        bind_ok (acquire h) (λ was_ro x. ((move x).0, release h was_ro (move x).1)) w e in
      let v = (acquire h w).1 in
      let stands = acquire-Keeps h p (mount p) w ∙ at_old.stands in
      let moved = rename_done p q v stands (or_message_ok (rename p q v).0 _ e1) in
      record {
        bytes = at_old.bytes;
        text = at_old.text;
        stands =
            ap (λ (x : Machine). lookup q x.files) m
            ∙ (release-Keeps h q (mount q) ro (move v).1 ∙ moved);
        reads = at_old.reads;
        boots = at_old.boots;
      }

  pub rename_entry-EntryAt :
      (old new : Text) (w : Machine)
      → EntryAt dir verity w.files old
      → (rename_entry h dir old new w).0 ≡ ok tt
      → EntryAt dir verity (rename_entry h dir old new w).1.files new
  unfolding rename_entry
  rename_entry-EntryAt old new w at_old e =
      moved-EntryAt old new w (equal old new) ((equal_iff old new).0) at_old e
