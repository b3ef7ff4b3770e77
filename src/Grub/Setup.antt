-- ===== src/Grub/Setup.antt =====
-- `setup` of bootguard/src/grub.rs and grubenv, a file that it does not write.
use agenticlinux.Prelude.{◌≡◌, refl, ◌∙◌, ap, Bool, true, false}
use agenticlinux.Text.{Text, codes, equal}
use agenticlinux.Utf8.{Bytes}
use agenticlinux.Machine.Monad.{Machine, bind_holds}
use agenticlinux.Machine.Fs.{lookup, write, read_to_string}
use agenticlinux.Machine.FileLaws.{lookup-write, read_to_string_files}
use agenticlinux.Machine.Helpers.{Host, map_err, with_boot_rw, read_or_empty, acquire}
use agenticlinux.Machine.Keeps.{Keeps, LeavesAlone, acquire-Keeps, release-Keeps, freeze_thaw_files}
use agenticlinux.Grub.{
  grubenv, custom_cfg, grub_cfg, snippet_present, setup, install, install_snippet, unless_present,
}

custom_differs : equal custom_cfg grubenv ≡ false
unfolding equal
custom_differs = refl

-- `setup` writes only custom.cfg.
module _ (h : Host) (mount : LeavesAlone h (codes "mount") grubenv) where
  written-Keeps :
      (w : Machine) (b : Bytes) (f : Text → Text)
      → Keeps grubenv w.files (map_err (write custom_cfg b) f w).1.files
  written-Keeps w b f = lookup-write grubenv custom_cfg b w custom_differs

  read_or_empty_files : (w : Machine) → (read_or_empty custom_cfg w).1.files ≡ w.files
  unfolding read_or_empty
  read_or_empty_files w = read_to_string_files custom_cfg w

  held_write-Keeps :
      (b : Bytes) (f : Text → Text) (w : Machine)
      → Keeps grubenv w.files (with_boot_rw h (map_err (write custom_cfg b) f) w).1.files
  held_write-Keeps b f w =
      bind_holds (λ x. Keeps grubenv w.files x.files) (acquire h) _ w
        (acquire-Keeps h grubenv mount w)
        (λ ro _.
          release-Keeps h grubenv mount ro _
          ∙ written-Keeps _ b f
          ∙ acquire-Keeps h grubenv mount w)

  install_snippet-Keeps : (w : Machine) → Keeps grubenv w.files (install_snippet h w).1.files
  unfolding install_snippet
  install_snippet-Keeps w =
      let start = ap (lookup grubenv) (read_or_empty_files w) in
      bind_holds (λ x. Keeps grubenv w.files x.files) (read_or_empty custom_cfg) _ w start
        (λ t _.
          bind_holds (λ x. Keeps grubenv w.files x.files) (with_boot_rw h _) _ _
            (held_write-Keeps _ _ _ ∙ start)
            (λ _ _.
              ap (lookup grubenv) (freeze_thaw_files (codes "/boot") _)
              ∙ held_write-Keeps _ _ _
              ∙ start))

  unless_present-Keeps : (r : Bool × Machine) → Keeps grubenv r.1.files (unless_present h r).1.files
  unfolding unless_present
  unless_present-Keeps (true, w) = refl
  unless_present-Keeps (false, w) = install_snippet-Keeps w

  snippet_present_files : (w : Machine) → (snippet_present w).1.files ≡ w.files
  unfolding snippet_present
  snippet_present_files w = read_to_string_files custom_cfg w

  install-Keeps : (b : Bool) (w : Machine) → Keeps grubenv w.files (install h b w).1.files
  unfolding install
  install-Keeps true w =
      unless_present-Keeps (snippet_present w) ∙ ap (lookup grubenv) (snippet_present_files w)
  install-Keeps false w = refl

  pub setup-Keeps : (w : Machine) → Keeps grubenv w.files (setup h w).1.files
  unfolding setup
  setup-Keeps w =
      let start = ap (lookup grubenv) (read_to_string_files grub_cfg w) in
      bind_holds (λ x. Keeps grubenv w.files x.files) (map_err (read_to_string grub_cfg) _) _ w
        start (λ t _. install-Keeps _ _ ∙ start)
