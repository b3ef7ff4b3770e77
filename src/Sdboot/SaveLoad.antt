-- ===== src/Sdboot/SaveLoad.antt =====
-- `save_trial` and `load_trial` of bootguard/src/sdboot.rs, one after the other.
use agenticlinux.Prelude.{◌≡◌, refl, true, none, some, ok, arith, All, All-append, []}
use agenticlinux.Text.{Text, codes}
use agenticlinux.Utf8.{encode}
use agenticlinux.Utf8.RoundTrip.{IsScalar, from_utf8-encode}
use agenticlinux.Machine.Monad.{Machine}
use agenticlinux.Machine.Fs.{lookup, next_fault, read, read_to_string}
use agenticlinux.Sys.{is_safe_id}
use agenticlinux.Sys.SafeId.{safe-IsScalar}
use agenticlinux.Sdboot.{parse_trial, trial_text}
use agenticlinux.Sdboot.Files.{trial_path, save_trial, load_trial}
use agenticlinux.Sdboot.Record.{save_trial_ok, save_trial_safe}

trial_text-IsScalar :
    (target verity : Text)
    → is_safe_id target ≡ true
    → is_safe_id verity ≡ true
    → All IsScalar (trial_text target verity)
unfolding trial_text
trial_text-IsScalar target verity t v = All-append IsScalar (codes "target=") _ (omega arith) (
    All-append IsScalar target _ (safe-IsScalar target t) (
      All-append IsScalar (codes "\nverity=") _ (omega arith)
        (All-append IsScalar verity _ (safe-IsScalar verity v) (omega arith))))

load_found :
    (w : Machine) (text : Text) {t : Text × Text}
    → next_fault w.faults ≡ none
    → lookup trial_path w.files ≡ some (encode text)
    → All IsScalar text
    → parse_trial text ≡ some t
    → (load_trial w).0 ≡ some t
unfolding load_trial read_to_string read
load_found w text calm stands scalar tells =
    rw (calm, stands, from_utf8-encode text scalar, tells) refl

-- A record of a trial that was saved is loaded again, with its digest and id, by the next read of it
-- that does not fail.
pub load_trial-save_trial :
    (target verity : Text) (w : Machine)
    → (save_trial target verity w).0 ≡ ok tt
    → next_fault (save_trial target verity w).1.faults ≡ none
    → (load_trial (save_trial target verity w).1).0 ≡ some (target, verity)
load_trial-save_trial target verity w saved calm =
    let (tells, stands, _) = save_trial_ok target verity [] w saved in
    let (t, v) = save_trial_safe target verity w saved in
    load_found (save_trial target verity w).1 (trial_text target verity) calm stands
      (trial_text-IsScalar target verity t v) tells
