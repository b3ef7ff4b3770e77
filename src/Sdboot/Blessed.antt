-- ===== src/Sdboot/Blessed.antt =====
-- `bless` of bootguard/src/sdboot.rs: the entry that was booted loses its counter and nothing else.
use agenticlinux.Prelude.{ℕ, ◌≡◌, subst, sym, Option, some, ok}
use agenticlinux.Text.{Text, codes}
use agenticlinux.Machine.Monad.{Machine}
use agenticlinux.Machine.FileLaws.{read_files}
use agenticlinux.Machine.Helpers.{Host}
use agenticlinux.Machine.Keeps.{LeavesAlone}
use agenticlinux.Sdboot.{base_name}
use agenticlinux.Sdboot.Files.{entries_dir, efivar, selected, pending, bless_entry, bless}
use agenticlinux.Sdboot.Found.{EntryAt, rename_entry-EntryAt}

pub pending_files : (w : Machine) → (pending w).1.files ≡ w.files
unfolding pending selected efivar
pending_files w = read_files _ w

bless_entry-EntryAt :
    (h : Host)
    → ((p : Text) → LeavesAlone h (codes "mount") p)
    → (verity file : Text) (left : ℕ) (p : Option (Text × ℕ)) (w : Machine) → p ≡ some (file, left)
    → EntryAt entries_dir verity w.files file
    → (bless_entry h p w).0 ≡ ok tt
    → EntryAt entries_dir verity (bless_entry h p w).1.files (base_name file)
unfolding bless_entry
bless_entry-EntryAt h mount verity file left p w e at done =
    rw e (rename_entry-EntryAt h mount entries_dir verity file (base_name file) w at (rw e at done))

-- If `bless` succeeds while a counted entry is pending that boots a composefs id, then an entry that
-- boots that id stands under the name without the counter, if `mount` leaves every file's content
-- alone.
pub bless-EntryAt :
    (h : Host)
    → ((p : Text) → LeavesAlone h (codes "mount") p)
    → (verity file : Text) (left : ℕ) (w : Machine) → (pending w).0 ≡ some (file, left)
    → EntryAt entries_dir verity w.files file
    → (bless h w).0 ≡ ok tt
    → EntryAt entries_dir verity (bless h w).1.files (base_name file)
unfolding bless
bless-EntryAt h mount verity file left w found at done =
    bless_entry-EntryAt h mount verity file left (pending w).0 (pending w).1 found
      (subst (λ fs. EntryAt entries_dir verity fs file) (sym (pending_files w)) at) done
