-- ===== src/Grub/Snippet.antt =====
-- After `setup` of bootguard/src/grub.rs the snippet is in custom.cfg.
use agenticlinux.Prelude.{
  ℕ, zero, suc, ◌+◌, ◌||◌, ◌≡◌, refl, ◌∙◌, ap, sym, subst, inl, inr, true, [], ◌∷◌, ◌++◌, Option,
  none, some, arith, All, All-append, Bool-cases, ltb, take, drop, length, if◌then◌else◌,
}
use mathlib.Core.List.{append_assoc, append-nil}
use agenticlinux.Text.{Text, starts_with, find, has_text, is_empty, ends_with, all}
use agenticlinux.Text.Laws.{starts_with-append, all_iff}
use agenticlinux.Utf8.RoundTrip.{IsScalar}
use agenticlinux.State.{
  mark_begin, mark_end, snippet, block, skip_newline, replace_block, append_block, merge_at,
  merge_custom_cfg,
}
use agenticlinux.Grub.{has_snippet}

has_text_at : (a p b : Text) → has_text (a ++ (p ++ b)) p ≡ true
unfolding has_text find starts_with
has_text_at [] [] [] = refl
has_text_at [] [] (c ∷ b) = refl
has_text_at [] (x ∷ p) b = ground (arith, starts_with-append p b)
has_text_at (c ∷ a) p b = ground (arith, has_text_at a p b)

begin_in_block :
    (base post : Text)
    → base ++ (block ++ post)
      ≡ base ++ (mark_begin ++ (b'\n' ∷ ((snippet ++ (mark_end ++ b'\n' ∷ [])) ++ post)))
unfolding block
begin_in_block base post =
    ap (λ x. base ++ x)
      (append_assoc mark_begin (b'\n' ∷ (snippet ++ (mark_end ++ b'\n' ∷ []))) post)

snippet_in_block :
    (base post : Text)
    → base ++ (block ++ post)
      ≡ (base ++ (mark_begin ++ b'\n' ∷ [])) ++ (snippet ++ ((mark_end ++ b'\n' ∷ []) ++ post))
snippet_in_block base post =
    let tail = mark_end ++ b'\n' ∷ [] in
    let front = mark_begin ++ b'\n' ∷ [] in
    let body = snippet ++ (tail ++ post) in
    begin_in_block base post
    ∙ ap (λ x. base ++ (mark_begin ++ (b'\n' ∷ x))) (append_assoc snippet tail post)
    ∙ sym (ap (λ x. base ++ x) (append_assoc mark_begin (b'\n' ∷ []) body))
    ∙ sym (append_assoc base front body)

has_snippet_at : (base post : Text) → has_snippet (base ++ (block ++ post)) ≡ true
unfolding has_snippet
has_snippet_at base post =
    let first : has_text (base ++ (block ++ post)) mark_begin ≡ true =
      ap (λ x. has_text x mark_begin) (begin_in_block base post) ∙ has_text_at base mark_begin _ in
    let second : has_text (base ++ (block ++ post)) snippet ≡ true =
      ap (λ x. has_text x snippet) (snippet_in_block base post) ∙ has_text_at _ snippet _ in
    rw (first, second) refl

-- The parts of a merged text around the block, out of the old one.
record AroundBlock (s merged : Text) : Type 0 where
  base : Text
  post : Text
  is_merged : merged ≡ base ++ (block ++ post)
  base_scalar : All IsScalar s → All IsScalar base
  post_scalar : All IsScalar s → All IsScalar post

take-All : (n : ℕ) (s : Text) → All IsScalar s → All IsScalar (take n s)
take-All zero s h = tt
take-All (suc n) [] h = tt
take-All (suc n) (c ∷ s) h = (h.0, take-All n s h.1)

drop-All : (n : ℕ) (s : Text) → All IsScalar s → All IsScalar (drop n s)
drop-All zero s h = h
drop-All (suc n) [] h = tt
drop-All (suc n) (c ∷ s) h = drop-All n s h.1

skip_newline-All : (s : Text) → All IsScalar s → All IsScalar (skip_newline s)
unfolding skip_newline
skip_newline-All s h = elim (Bool-cases (starts_with s (b'\n' ∷ []))) [
  | inl e ↦ rw e (drop-All 1 s h)
  | inr e ↦ rw e h
]

abbrev separator : Text → Text
separator s = if is_empty s || ends_with s (b'\n' ∷ []) then [] else b'\n' ∷ []

separator-All : (s : Text) → All IsScalar (separator s)
separator-All s = elim (Bool-cases (is_empty s || ends_with s (b'\n' ∷ []))) [
  | inl e ↦ rw e tt
  | inr e ↦ rw e (inl (omega arith), tt)
]

append_block-Around : (s : Text) → AroundBlock s (append_block s)
append_block-Around s = record {
  base = s ++ separator s;
  post = [];
  is_merged =
      ap (λ x. s ++ (separator s ++ x)) (sym (append-nil block))
      ∙ sym (append_assoc s (separator s) (block ++ []));
  base_scalar = λ h. All-append IsScalar s (separator s) h (separator-All s);
  post_scalar = λ h. tt;
}

replace_block-Around : (s : Text) (b e : ℕ) → AroundBlock s (replace_block s b e)
replace_block-Around s b e = record {
  base = take b s;
  post = skip_newline (drop (e + length mark_end) s);
  is_merged = refl;
  base_scalar = take-All b s;
  post_scalar =
      λ h. skip_newline-All (drop (e + length mark_end) s) (drop-All (e + length mark_end) s h);
}

merge_at-Around : (s : Text) (b e : Option ℕ) → AroundBlock s (merge_at s b e)
merge_at-Around s (some b) (some e) = elim (Bool-cases (ltb b e)) [
  | inl inside ↦ rw inside (replace_block-Around s b e)
  | inr not_inside ↦ rw not_inside (append_block-Around s)
]
merge_at-Around s none e = append_block-Around s
merge_at-Around s (some b) none = append_block-Around s

block_ascii : all (λ c. ltb c 0x80) block ≡ true
unfolding block all mark_begin mark_end snippet
block_ascii = refl

ascii-IsScalar : (s : Text) → All (λ c. ltb c 0x80 ≡ true) s → All IsScalar s
ascii-IsScalar [] h = tt
ascii-IsScalar (c ∷ s) h = (inl (ground (arith, h.0)), ascii-IsScalar s h.1)

block-IsScalar : All IsScalar block
block-IsScalar = ascii-IsScalar block ((all_iff (λ c. ltb c 0x80) block).0 block_ascii)

pub merge-has_snippet :
    (s : Text)
    → All IsScalar s
    → (has_snippet (merge_custom_cfg s) ≡ true) × All IsScalar (merge_custom_cfg s)
unfolding merge_custom_cfg
merge-has_snippet s h =
    let a = merge_at-Around s (find s mark_begin) (find s mark_end) in
    (
      ap has_snippet a.is_merged ∙ has_snippet_at a.base a.post,
      subst (All IsScalar) (sym a.is_merged) (
          All-append IsScalar a.base (block ++ a.post) (a.base_scalar h)
            (All-append IsScalar block a.post block-IsScalar (a.post_scalar h))),
    )
