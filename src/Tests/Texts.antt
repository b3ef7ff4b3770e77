-- ===== src/Tests/Texts.antt =====
-- Decisions, names, records and configurations.
use mathlib.Core.Option
use agenticlinux.Prelude.{
  Option, max, min, ℕ, suc, ◌↔◌, ◌++◌, [], ◌≡◌, refl, inr, arith, ok, some, none, true, false,
}
use agenticlinux.Prelude.Int.{pos, negsuc}
use agenticlinux.Text.{Text, equal, codes, find, strip_suffix}
use agenticlinux.Text.Split.{lines, split_whitespace}
use agenticlinux.State.{
  exhausted, fell_back, rollback_now, assess, reboot, on_check_failure, block, mark_begin, mark_end,
  merge_custom_cfg, snippet,
}
use agenticlinux.State.Decision.{Describes, assess-Describes, on_check_failure_iff}
use agenticlinux.State.Merge.{MarksInOrder, merge-merge}
use agenticlinux.State.Lifecycle.{Boots, next, first, Boots-judged}
use agenticlinux.Sys.{is_safe_id}
use agenticlinux.Sys.SafeId.{parse_trial-trial_text}
use agenticlinux.Sdboot.{conf, parse_counter, with_tries, base_name, parse_trial, trial_text}
use agenticlinux.Sdboot.Counter.{parse_counter-with_tries, base_name-with_tries}
use agenticlinux.Config.{load, bool_or}
use agenticlinux.Config.Bounds.{IsSane, load-IsSane}
use agenticlinux.Config.Layers.{setting, bounded, value_or, load-setting}
use agenticlinux.Bootc.{parse_booted_is_default}
use agenticlinux.Bootc.Order.{Decides, parse_booted_is_default-Decides}

assess_exhausted : assess (some (negsuc 0)) (some (codes "a")) (codes "a") ≡ exhausted (codes "a")
unfolding assess agenticlinux.Text.equal
assess_exhausted = refl

assess-Describes_example :
    Describes
      (some (pos 2))
      (some (codes "a"))
      (codes "b")
      (assess (some (pos 2)) (some (codes "a")) (codes "b"))
assess-Describes_example = assess-Describes (some (pos 2)) (some (codes "a")) (codes "b")

on_check_failure_iff_example :
    (on_check_failure (some (pos 1)) ≡ reboot) ↔ ((n : ℕ) × (some (pos 1) ≡ some (pos (suc n))))
on_check_failure_iff_example = on_check_failure_iff (some (pos 1))

abbrev once_merged : Text
once_merged = codes "set timeout=1\n" ++ block

once_merged_marks : MarksInOrder once_merged
unfolding find mark_begin block mark_end snippet
once_merged_marks = inr (14, 490, refl, refl, omega arith)

merge-merge_example : merge_custom_cfg (merge_custom_cfg once_merged) ≡ merge_custom_cfg once_merged
merge-merge_example = merge-merge once_merged once_merged_marks

parse_counter-with_tries_example :
    parse_counter (with_tries (codes "a-44-1+2-1.conf") 0 (some 1)) ≡ some (0, 1)
parse_counter-with_tries_example =
    parse_counter-with_tries (codes "a-44-1+2-1.conf") 0 (some 1) (omega arith) (omega arith)

with_tries_stem : strip_suffix (codes "c++-1+3.conf") conf ≡ some (codes "c++-1+3")
unfolding strip_suffix
with_tries_stem = refl

base_name-with_tries_example :
    (base_name (with_tries (codes "c++-1+3.conf") 7 none) ≡ base_name (codes "c++-1+3.conf"))
    × ((left' : ℕ) (done' : Option ℕ)
        → with_tries (with_tries (codes "c++-1+3.conf") 7 none) left' done'
          ≡ with_tries (codes "c++-1+3.conf") left' done')
base_name-with_tries_example =
    base_name-with_tries (codes "c++-1+3.conf") (codes "c++-1+3") 7 none with_tries_stem
      (omega arith) tt

safe_target : is_safe_id (codes "sha256:aa") ≡ true
unfolding is_safe_id
safe_target = refl

safe_verity : is_safe_id (codes "bb") ≡ true
unfolding is_safe_id
safe_verity = refl

parse_trial-trial_text_example :
    parse_trial (trial_text (codes "sha256:aa") (codes "bb")) ≡ some (codes "sha256:aa", codes "bb")
parse_trial-trial_text_example =
    parse_trial-trial_text (codes "sha256:aa") (codes "bb") safe_target safe_verity

load-IsSane_example : IsSane (load (some (codes "MAX_ATTEMPTS=99\nTRIAL_TIMEOUT=1\n")) none)
load-IsSane_example = load-IsSane (some (codes "MAX_ATTEMPTS=99\nTRIAL_TIMEOUT=1\n")) none

abbrev vendor : Text
vendor = codes "MAX_ATTEMPTS=5\nENABLED=no\n"

abbrev admin : Text
admin = codes "MAX_ATTEMPTS=40\n"

load-setting_example : load (some vendor) (some admin) ≡ record {
  enabled = bool_or (setting vendor admin (codes "ENABLED")) true;
  preflight = bool_or (setting vendor admin (codes "PREFLIGHT")) true;
  max_attempts = bounded (setting vendor admin (codes "MAX_ATTEMPTS")) (λ v. max 1 (min v 20)) 3;
  trial_timeout = bounded (setting vendor admin (codes "TRIAL_TIMEOUT")) (λ v. max v 10) 600;
  check_timeout = bounded (setting vendor admin (codes "CHECK_TIMEOUT")) (λ v. max v 1) 120;
  required_units =
      value_or (Option.map split_whitespace (setting vendor admin (codes "REQUIRED_UNITS"))) [];
  fail_on_failed_units = bool_or (setting vendor admin (codes "FAIL_ON_FAILED_UNITS")) false;
}
load-setting_example = load-setting vendor admin

abbrev status_text : Text
status_text = codes "  default new.0 (staged)\n* default abc.0\n    origin: x\n"

booted_first : parse_booted_is_default status_text ≡ ok true
unfolding parse_booted_is_default lines agenticlinux.Text.Split.split_whitespace
    agenticlinux.Text.trim_start_matches agenticlinux.Text.strip_prefix agenticlinux.Text.has_char
    agenticlinux.Text.has_text
booted_first = refl

parse_booted_is_default-Decides_example :
    Decides (lines status_text) (parse_booted_is_default status_text)
parse_booted_is_default-Decides_example = parse_booted_is_default-Decides status_text

-- One attempt, and the boot behind it.
second_boot : Boots (some (pos 1)) 2 true (some (negsuc 0))
unfolding agenticlinux.State.Lifecycle.count_boot
second_boot = next first

target_differs : equal (codes "new") (codes "old") ≡ false
unfolding equal
target_differs = refl

Boots-judged_example :
    (assess (some (negsuc 0)) (some (codes "new")) (codes "old") ≡ fell_back (codes "new"))
    × (on_check_failure (some (negsuc 0)) ≡ rollback_now)
Boots-judged_example = Boots-judged (codes "new") (codes "old") 1 target_differs second_boot
