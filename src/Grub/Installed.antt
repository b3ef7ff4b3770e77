-- ===== src/Grub/Installed.antt =====
-- `setup` of bootguard/src/grub.rs leaves the snippet in custom.cfg.
use agenticlinux.Prelude.{
  ◌≡◌, refl, ◌∙◌, ap, sym, subst, Bool, true, false, some, ok, All, ok_injective,
}
use agenticlinux.Text.{Text, codes}
use agenticlinux.Utf8.{Bytes, encode, from_utf8}
use agenticlinux.Utf8.RoundTrip.{IsScalar, from_utf8-encode}
use agenticlinux.Utf8.Scalars.{from_utf8-IsScalar}
use agenticlinux.Machine.Monad.{Machine, Files, bind_ok}
use agenticlinux.Machine.Fs.{IoResult, done, not_found, failed, lookup, read_to_string, write}
use agenticlinux.Machine.FileLaws.{
  read_to_string_done, read_to_string_files, or_message_ok, write_done,
}
use agenticlinux.Machine.Helpers.{
  Host, map_err, with_boot_rw, read_or_empty, empty_if_missing, acquire, release,
}
use agenticlinux.Machine.Keeps.{LeavesAlone, release-Keeps, freeze_thaw_files}
use agenticlinux.State.{merge_custom_cfg}
use agenticlinux.Grub.{
  custom_cfg, grub_cfg, has_snippet, present_in, snippet_present, sources_custom_cfg, setup,
  install, install_snippet, unless_present,
}
use agenticlinux.Grub.Snippet.{merge-has_snippet}

-- custom.cfg is a text with the begin mark and the snippet in it.
abbrev pub HasSnippet : Files → Type 0
HasSnippet fs =
    (b : Bytes) × (t : Text) × (lookup custom_cfg fs ≡ some b)
    × (from_utf8 b ≡ some t)
    × (has_snippet t ≡ true)

present-HasSnippet :
    (w : Machine) (r : IoResult Text)
    → (read_to_string custom_cfg w).0 ≡ r
    → present_in r ≡ true
    → HasSnippet w.files
present-HasSnippet w (done t) e has =
    let (b, f, u) = read_to_string_done custom_cfg w e in (b, t, f, u, has)
present-HasSnippet w not_found e has = cc
present-HasSnippet w (failed m) e has = cc

-- What `read_or_empty` gives is a text of scalar values.
existing-IsScalar :
    (w : Machine) (r : IoResult Text) {t : Text}
    → (read_to_string custom_cfg w).0 ≡ r
    → empty_if_missing custom_cfg r ≡ ok t
    → All IsScalar t
existing-IsScalar w (done t) e o =
    let (b, _, u) = read_to_string_done custom_cfg w e in
    subst (All IsScalar) (ok_injective o) (from_utf8-IsScalar b u)
existing-IsScalar w not_found e o = subst (All IsScalar) (ok_injective o) tt
existing-IsScalar w (failed m) e o = cc

module _ (h : Host) (mount : LeavesAlone h (codes "mount") custom_cfg) where
  held_write_ok :
      (b : Bytes) (f : Text → Text) (w : Machine)
      → (with_boot_rw h (map_err (write custom_cfg b) f) w).0 ≡ ok tt
      → lookup custom_cfg (with_boot_rw h (map_err (write custom_cfg b) f) w).1.files ≡ some b
  held_write_ok b f w e =
      let (ro, _, e1, m) =
        bind_ok (acquire h)
          (λ was_ro v. (
            (map_err (write custom_cfg b) f v).0,
            release h was_ro (map_err (write custom_cfg b) f v).1,
          ))
          w e in
      let v = (acquire h w).1 in
      ap (λ (x : Machine). lookup custom_cfg x.files) m
      ∙ release-Keeps h custom_cfg mount ro (write custom_cfg b v).1
      ∙ write_done custom_cfg b v (or_message_ok (write custom_cfg b v).0 f e1)

  install_snippet-HasSnippet :
      (w : Machine) → (install_snippet h w).0 ≡ ok tt → HasSnippet (install_snippet h w).1.files
  unfolding install_snippet read_or_empty
  install_snippet-HasSnippet w e =
      let v = (read_or_empty custom_cfg w).1 in
      let (existing, read_ok, e1, m1) = bind_ok (read_or_empty custom_cfg) _ w e in
      let scalar = existing-IsScalar w (read_to_string custom_cfg w).0 refl read_ok in
      let merged = merge_custom_cfg existing in
      let (has, all_scalar) = merge-has_snippet existing scalar in
      let (_, written, e2, m2) =
        bind_ok (with_boot_rw h (map_err (write custom_cfg (encode merged)) _)) _ v e1 in
      (
        encode merged,
        merged,
        ap (λ (x : Machine). lookup custom_cfg x.files) (m1 ∙ m2)
            ∙ ap (lookup custom_cfg) (freeze_thaw_files (codes "/boot") _)
            ∙ held_write_ok (encode merged) _ v written,
        from_utf8-encode merged all_scalar,
        has,
      )

  unless_present-HasSnippet :
      (r : Bool × Machine)
      → (r.0 ≡ true → HasSnippet r.1.files)
      → (unless_present h r).0 ≡ ok tt
      → HasSnippet (unless_present h r).1.files
  unfolding unless_present
  unless_present-HasSnippet (true, w) present e = present refl
  unless_present-HasSnippet (false, w) present e = install_snippet-HasSnippet w e

  snippet_present-HasSnippet :
      (w : Machine) → (snippet_present w).0 ≡ true → HasSnippet (snippet_present w).1.files
  unfolding snippet_present
  snippet_present-HasSnippet w e =
      subst HasSnippet (sym (read_to_string_files custom_cfg w))
        (present-HasSnippet w (read_to_string custom_cfg w).0 refl e)

  install-HasSnippet :
      (loads : Bool) (w : Machine)
      → (install h loads w).0 ≡ ok tt
      → (loads ≡ true) × HasSnippet (install h loads w).1.files
  unfolding install
  install-HasSnippet true w e =
      (refl, unless_present-HasSnippet (snippet_present w) (snippet_present-HasSnippet w) e)
  install-HasSnippet false w e = cc

  -- If `setup` succeeds, then grub.cfg is a text that loads custom.cfg, and custom.cfg is a text that
  -- has the begin mark and the whole snippet in it, whatever it was before, if `mount` leaves its
  -- content alone: so GRUB counts the boots.
  pub setup-HasSnippet :
      (w : Machine)
      → (setup h w).0 ≡ ok tt
      → ((b : Bytes) × (t : Text) × (lookup grub_cfg w.files ≡ some b)
          × (from_utf8 b ≡ some t)
          × (sources_custom_cfg t ≡ true))
        × HasSnippet (setup h w).1.files
  unfolding setup
  setup-HasSnippet w e =
      let (t, r, e1, m) =
        bind_ok (map_err (read_to_string grub_cfg) _) (λ text. install h (sources_custom_cfg text))
          w e in
      let (b, is_file, is_text) =
        read_to_string_done grub_cfg w (or_message_ok (read_to_string grub_cfg w).0 _ r) in
      let (loads, has) =
        install-HasSnippet (sources_custom_cfg t) (read_to_string grub_cfg w).1 e1 in
      ((b, t, is_file, is_text, loads), subst (λ (x : Machine). HasSnippet x.files) (sym m) has)
