-- ===== src/Sdboot/Bad.antt =====
-- `mark_bad` of bootguard/src/sdboot.rs.
use agenticlinux.Prelude.{
  ℕ, zero, suc, ◌≡◌, refl, ◌∙◌, ap, sym, subst, Bool, true, Option, none, some, arith, ok,
}
use agenticlinux.Text.{Text, codes}
use agenticlinux.Machine.Monad.{Machine, Files, bind_ok, pure, ◌>>◌}
use agenticlinux.Machine.Helpers.{Host}
use agenticlinux.Machine.Keeps.{LeavesAlone}
use agenticlinux.Sdboot.{parse_counter, with_tries}
use agenticlinux.Sdboot.Counter.{parse_counter-with_tries}
use agenticlinux.Sdboot.Found.{EntryAt, find_entry-EntryAt, rename_entry-EntryAt}
use agenticlinux.Sdboot.Bounds.{parse_counter-le}
use agenticlinux.Sdboot.Files.{
  entries_dir, find_entry, rename_entry, mark_counted, mark_found, mark_bad,
}

-- Among the entries stands one that boots the composefs id and has no tries left.
pub record HasNoTries (verity : Text) (fs : Files) : Type 0 where
  pub name : Text
  pub tried : ℕ
  pub entry : EntryAt entries_dir verity fs name
  pub exhausted : parse_counter name ≡ some (0, tried)

module _ (h : Host) (mount : (p : Text) → LeavesAlone h (codes "mount") p) (verity : Text) where
  renamed-HasNoTries :
      (file new : Text) (tried : ℕ) (w : Machine) {b : Bool}
      → EntryAt entries_dir verity w.files file
      → parse_counter new ≡ some (0, tried)
      → ((rename_entry h entries_dir file new >> pure true) w).0 ≡ ok b
      → HasNoTries verity ((rename_entry h entries_dir file new >> pure true) w).1.files
  renamed-HasNoTries file new tried w at_file counter e =
      let (_, e1, _, m) = bind_ok (rename_entry h entries_dir file new) (λ _. pure true) w e in
      record {
        name = new;
        tried = tried;
        entry =
            subst (λ (x : Machine). EntryAt entries_dir verity x.files new) (sym m)
              (rename_entry-EntryAt h mount entries_dir verity file new w at_file e1);
        exhausted = counter;
      }

  mark_counted-HasNoTries :
      (file : Text) (c : Option (ℕ × ℕ)) (w : Machine) {b : Bool}
      → parse_counter file ≡ c
      → EntryAt entries_dir verity w.files file
      → (mark_counted h file c w).0 ≡ ok b
      → HasNoTries verity (mark_counted h file c w).1.files
  unfolding mark_counted
  mark_counted-HasNoTries file (some (zero, tried)) w counter at_file e = record {
    name = file;
    tried = tried;
    entry = at_file;
    exhausted = counter;
  }
  mark_counted-HasNoTries file (some (suc _, tried)) w counter at_file e =
      renamed-HasNoTries file (with_tries file 0 (some tried)) tried w at_file
        (parse_counter-with_tries file 0 (some tried) (omega arith) (parse_counter-le file counter))
        e
  mark_counted-HasNoTries file none w counter at_file e =
      renamed-HasNoTries file (with_tries file 0 none) 0 w at_file
        (parse_counter-with_tries file 0 none (omega arith) tt) e

  mark_found-HasNoTries :
      (found : Option Text) (w : Machine)
      → ((n : Text) → found ≡ some n → EntryAt entries_dir verity w.files n)
      → (mark_found h found w).0 ≡ ok true
      → HasNoTries verity (mark_found h found w).1.files
  unfolding mark_found
  mark_found-HasNoTries none w found e = cc
  mark_found-HasNoTries (some file) w found e =
      mark_counted-HasNoTries file (parse_counter file) w refl (found file refl) e

  -- If `mark_bad` answers that it has marked an entry, then an entry that boots the deployment stands
  -- among the entries under a name without tries left, if `mount` leaves every file's content alone.
  pub mark_bad-HasNoTries :
      (w : Machine)
      → (mark_bad h verity w).0 ≡ ok true
      → HasNoTries verity (mark_bad h verity w).1.files
  unfolding mark_bad
  mark_bad-HasNoTries w e =
      let (found, f, e1, m) = bind_ok (find_entry entries_dir verity) (mark_found h) w e in
      subst (λ (x : Machine). HasNoTries verity x.files) (sym m)
        (mark_found-HasNoTries found (find_entry entries_dir verity w).1
          (λ n same. find_entry-EntryAt entries_dir verity w (f ∙ ap ok same)) e1)
