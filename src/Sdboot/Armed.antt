-- ===== src/Sdboot/Armed.antt =====
-- `arm` of bootguard/src/sdboot.rs: the counted entry and the record that it leaves.
use agenticlinux.Prelude.{ℕ, ◌≤◌, ◌≡◌, refl, ◌∙◌, ap, sym, subst, Bool, true, false, none, some, ok}
use agenticlinux.Prelude.Results.{ok_or, ok_or_ok}
use agenticlinux.Text.{Text, codes, equal}
use agenticlinux.Text.Decimal.{u32_max}
use agenticlinux.Utf8.{Bytes, encode}
use agenticlinux.Machine.Monad.{Machine, Files, bind_ok, bind_holds, lift}
use agenticlinux.Machine.Fs.{lookup, rename}
use agenticlinux.Machine.Helpers.{Host, map_err, acquire, release}
use agenticlinux.Machine.Keeps.{Keeps, LeavesAlone, acquire-Keeps, release-Keeps}
use agenticlinux.Bootc.{Deployment}
use agenticlinux.Sdboot.{parse_counter, with_tries, parse_trial, trial_text}
use agenticlinux.Sdboot.Counter.{parse_counter-with_tries}
use agenticlinux.Sdboot.Files.{
  staged_dir, trial_path, join, find_entry, save_trial, rename_unless, rename_entry, setup, arm,
}
use agenticlinux.Sdboot.Record.{rename-Keeps, record_paths, save_trial_ok}
use agenticlinux.Sdboot.Found.{EntryAt, find_entry-EntryAt, rename_entry-EntryAt}

-- The staged entry has its tries, and the record tells of the trial.
pub record Armed (staged : Deployment) (attempts : ℕ) (fs : Files) : Type 0 where
  pub verity : Text
  pub of_staged : staged.verity ≡ some verity
  pub name : Text
  pub record_bytes : Bytes
  pub record_text : Text
  pub entry : EntryAt staged_dir verity fs name
  pub tries : parse_counter name ≡ some (attempts, 0)
  pub recorded : lookup trial_path fs ≡ some record_bytes
  pub written : record_bytes ≡ encode record_text
  pub tells : parse_trial record_text ≡ some (staged.digest, verity)

EntryAt-Keeps :
    (dir verity name : Text) (fs fs' : Files)
    → Keeps (join dir name) fs fs'
    → EntryAt dir verity fs name
    → EntryAt dir verity fs' name
EntryAt-Keeps dir verity name fs fs' k e = record {
  bytes = e.bytes;
  text = e.text;
  stands = k ∙ e.stands;
  reads = e.reads;
  boots = e.boots;
}

module _ (h : Host) (mount : (p : Text) → LeavesAlone h (codes "mount") p) where
  renamed-Keeps :
      (old new : Text) (b : Bool) (w : Machine)
      → Keeps trial_path w.files (rename_unless h staged_dir old new b w).1.files
  unfolding rename_unless
  renamed-Keeps old new true w = refl
  renamed-Keeps old new false w =
      let p = join staged_dir old in
      let q = join staged_dir new in
      let move = map_err (rename p q) _ in
      let (_, _, off_p) = record_paths old in
      let (_, _, off_q) = record_paths new in
      bind_holds (λ x. Keeps trial_path w.files x.files) (acquire h)
        (λ was_ro x. ((move x).0, release h was_ro (move x).1)) w
        (acquire-Keeps h trial_path (mount trial_path) w)
        (λ ro _.
          release-Keeps h trial_path (mount trial_path) ro _
          ∙ rename-Keeps p q trial_path (acquire h w).1 off_p off_q
          ∙ acquire-Keeps h trial_path (mount trial_path) w)

  rename_entry-Keeps :
      (old new : Text) (w : Machine)
      → Keeps trial_path w.files (rename_entry h staged_dir old new w).1.files
  unfolding rename_entry
  rename_entry-Keeps old new w = renamed-Keeps old new (equal old new) w

  -- If `arm` succeeds, a staged entry that boots the staged deployment stands under a name with that
  -- many tries and none done, and the record of the trial, in the bytes of its file, tells of the
  -- digest and of the id that the entry boots, if `mount` leaves every file's content alone and the
  -- number of tries is a `u32`.
  pub arm-Armed :
      (staged : Deployment) (attempts : ℕ) (w : Machine)
      → attempts ≤ u32_max
      → (arm h staged attempts w).0 ≡ ok tt
      → Armed staged attempts (arm h staged attempts w).1.files
  unfolding arm
  arm-Armed staged attempts w small e =
      let (_, _, e1, m1) = bind_ok setup _ w e in
      let w1 = (setup w).1 in
      let (verity, of_staged, e2, m2) = bind_ok (lift (ok_or staged.verity _)) _ w1 e1 in
      let (found, f, e3, m3) = bind_ok (find_entry staged_dir verity) _ w1 e2 in
      let w2 = (find_entry staged_dir verity w1).1 in
      let (file, is_file, e4, m4) = bind_ok (lift (ok_or found _)) _ w2 e3 in
      let (_, saved, e5, m5) = bind_ok (save_trial staged.digest verity) _ w2 e4 in
      let w3 = (save_trial staged.digest verity w2).1 in
      let new = with_tries file attempts none in
      let (tells, stands, keeps) = save_trial_ok staged.digest verity file w2 saved in
      let at_file = find_entry-EntryAt staged_dir verity w1 (f ∙ ap ok (ok_or_ok _ _ is_file)) in
      let at_file' = EntryAt-Keeps staged_dir verity file w2.files w3.files keeps at_file in
      subst (λ (x : Machine). Armed staged attempts x.files) (sym (m1 ∙ m2 ∙ m3 ∙ m4 ∙ m5))
        (record {
          verity = verity;
          of_staged = ok_or_ok _ _ of_staged;
          name = new;
          record_bytes = encode (trial_text staged.digest verity);
          record_text = trial_text staged.digest verity;
          entry = rename_entry-EntryAt h mount staged_dir verity file new w3 at_file' e5;
          tries = parse_counter-with_tries file attempts none small tt;
          recorded = rename_entry-Keeps file new w3 ∙ stands;
          written = refl;
          tells = tells;
        })
