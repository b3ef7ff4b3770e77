-- ===== src/Sys/SafeId.antt =====
-- The ids that `is_safe_id` of bootguard/src/sys.rs accepts, in the texts they are written into.
use agenticlinux.Prelude.{
  ℕ, ◌≡◌, ◌<◌, refl, ◌∙◌, ap, inl, true, false, [], ◌∷◌, ◌++◌, some, arith, All, &&_split,
}
use agenticlinux.Text.{Text, codes, all, has_char, strip_prefix}
use agenticlinux.Text.Laws.{all_iff, has_char_of_all, has_char-append}
use agenticlinux.Text.Split.{lines}
use agenticlinux.Text.SplitLaws.{lines_at}
use agenticlinux.Sdboot.{parse_trial, trial_text}
use agenticlinux.Utf8.RoundTrip.{IsScalar}
use agenticlinux.Sys.{is_safe_char, is_safe_id}

all-is_safe_char : (s : Text) → is_safe_id s ≡ true → all is_safe_char s ≡ true
unfolding is_safe_id
all-is_safe_char s h = (&&_split _ _ h).1

pub safe_lacks :
    (c : ℕ) (s : Text) → is_safe_id s ≡ true → is_safe_char c ≡ false → has_char c s ≡ false
safe_lacks c s h k = has_char_of_all is_safe_char c s (all-is_safe_char s h) k

safe_char_ascii : (c : ℕ) → is_safe_char c ≡ true → c < 0x80
unfolding is_safe_char
safe_char_ascii c h = ground arith

All-ascii : (s : Text) → All (λ c. is_safe_char c ≡ true) s → All IsScalar s
All-ascii [] h = tt
All-ascii (c ∷ s) h = (inl (ground (arith, safe_char_ascii c h.0)), All-ascii s h.1)

pub safe-IsScalar : (s : Text) → is_safe_id s ≡ true → All IsScalar s
safe-IsScalar s h = All-ascii s ((all_iff is_safe_char s).0 (all-is_safe_char s h))

line_lacks :
    (k s : Text) (c : ℕ)
    → is_safe_id s ≡ true
    → is_safe_char c ≡ false
    → has_char c k ≡ false
    → has_char c (k ++ s) ≡ false
line_lacks k s c h e l = has_char-append c k s l (safe_lacks c s h e)

trial_lines :
    (target verity : Text)
    → is_safe_id target ≡ true
    → is_safe_id verity ≡ true
    → lines (trial_text target verity)
      ≡ (codes "target=" ++ target) ∷ (codes "verity=" ++ verity) ∷ []
unfolding trial_text is_safe_char has_char
trial_lines target verity h k =
    let t = codes "target=" ++ target in
    let v = codes "verity=" ++ verity in
    lines_at t (v ++ b'\n' ∷ []) (line_lacks (codes "target=") target b'\n' h refl refl)
      (line_lacks (codes "target=") target b'\r' h refl refl)
    ∙ ap (λ rest. t ∷ rest)
        (lines_at v [] (line_lacks (codes "verity=") verity b'\n' k refl refl)
          (line_lacks (codes "verity=") verity b'\r' k refl refl))
    ∙ unfold lines in refl

-- The record of a trial with two safe ids is read back as it was saved.
pub parse_trial-trial_text :
    (target verity : Text)
    → is_safe_id target ≡ true
    → is_safe_id verity ≡ true
    → parse_trial (trial_text target verity) ≡ some (target, verity)
unfolding parse_trial strip_prefix
parse_trial-trial_text target verity h k = rw (trial_lines target verity h k) refl
