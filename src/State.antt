-- ===== src/State.antt =====
-- bootguard/src/state.rs: the pure decisions on a trial, and the merge of our marked block into
-- GRUB's custom.cfg. `SNIPPET` is bootguard/src/grub-custom.cfg.
pub mod Decision
pub mod Find
pub mod Merge
pub mod Lifecycle
use agenticlinux.Prelude.{
  ℕ, suc, ◌+◌, Bool, ◌&&◌, ◌||◌, List, [], ◌∷◌, ◌++◌, Option, none, some, ltb, if◌then◌else◌,
  length, take, drop,
}
use agenticlinux.Prelude.Int.{ℤ, is_positive, is_negative}
use agenticlinux.Text.{Text, codes, equal, find, starts_with, ends_with, is_empty}

unfoldable pub mark_begin : Text
mark_begin = codes "# BEGIN agenticlinux-bootguard v1"

unfoldable pub mark_end : Text
mark_end = codes "# END agenticlinux-bootguard"

unfoldable pub snippet : Text
snippet =
    codes
      "# agenticlinux-bootguard: count boot attempts of a trial deployment. GRUB\n# decrements bg_counter on every attempt and, at zero, boots entry 1 (the\n# previous deployment). Userspace clears it once the new deployment is healthy.\ninsmod increment\nif [ -n \"${bg_counter}\" ]; then\n  if [ \"${bg_counter}\" = \"0\" -o \"${bg_counter}\" = \"-1\" ]; then\n    set default=1\n    set bg_counter=-1\n  else\n    decrement bg_counter\n  fi\n  save_env bg_counter\nfi\n"

pub data Assessment : Type 0 where
  idle stale trial_in_progress : Assessment
  exhausted : Text → Assessment
  fell_back : Text → Assessment

abbrev pub is_some {ℓ} : {A : Type ℓ} → Option A → Bool
is_some none = Bool.false
is_some (some _) = Bool.true

-- `counter.is_none_or(|c| c < 0)`
abbrev pub none_or_negative : Option ℤ → Bool
none_or_negative none = Bool.true
none_or_negative (some c) = is_negative c

-- `counter.is_some_and(|c| c > 0)`
abbrev pub some_and_positive : Option ℤ → Bool
some_and_positive none = Bool.false
some_and_positive (some c) = is_positive c

unfoldable pub assess : Option ℤ → Option Text → Text → Assessment
assess counter none booted = if is_some counter then stale else idle
assess counter (some t) booted =
    if equal t booted
    then (if none_or_negative counter then exhausted t else trial_in_progress)
    else fell_back t

pub data OnFailure : Type 0 where
  rollback_now reboot : OnFailure

unfoldable pub on_check_failure : Option ℤ → OnFailure
on_check_failure counter = if some_and_positive counter then reboot else rollback_now

-- Our block, between its two marks.
unfoldable pub block : Text
block = mark_begin ++ b'\n' ∷ (snippet ++ (mark_end ++ b'\n' ∷ []))

-- The text behind the old block: a newline that follows the end mark goes with it.
unfoldable pub skip_newline : Text → Text
skip_newline rest = if starts_with rest (b'\n' ∷ []) then drop 1 rest else rest

abbrev pub replace_block : Text → ℕ → ℕ → Text
replace_block existing b e =
    take b existing ++ (block ++ skip_newline (drop (e + length mark_end) existing))

abbrev pub append_block : Text → Text
append_block existing =
    existing
    ++ ((if is_empty existing || ends_with existing (b'\n' ∷ []) then [] else b'\n' ∷ []) ++ block)

-- What `merge_custom_cfg` does once it has looked for the two marks.
abbrev pub merge_at : Text → Option ℕ → Option ℕ → Text
merge_at existing (some b) (some e) =
    if ltb b e then replace_block existing b e else append_block existing
merge_at existing none _ = append_block existing
merge_at existing (some b) none = append_block existing

unfoldable pub merge_custom_cfg : Text → Text
merge_custom_cfg existing = merge_at existing (find existing mark_begin) (find existing mark_end)
