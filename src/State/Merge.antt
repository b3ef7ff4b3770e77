-- ===== src/State/Merge.antt =====
-- `merge_custom_cfg` of bootguard/src/state.rs, once and twice.
use agenticlinux.Prelude.{
  ℕ, suc, ◌+◌, ◌≤◌, ◌<◌, ◌≡◌, refl, sym, ap, ◌∙◌, ◌⊎◌, inl, inr, true, false, [], ◌∷◌, ◌++◌, none,
  some, arith, ltb, length, drop, take, length-append, Bool-cases, take-length-append,
  length-take_le, lt→ltb, take-append-drop, drop-length-append,
}
use mathlib.Core.List.{append_assoc, append-nil}
use agenticlinux.Text.{Text, starts_with, ends_with, find, has_char}
use agenticlinux.Text.Laws.{starts_with-append, ends_with-true, starts_with-true}
use agenticlinux.State.{
  mark_begin, mark_end, snippet, block, skip_newline, append_block, merge_custom_cfg,
}
use agenticlinux.State.Find.{
  NoneBefore, NoneBefore-le, find_at, find-some, find-none, NoneBefore-local, NoneBefore-newline,
  NoneBefore-after_newline, NoneBefore-append, none_before, none_before→NoneBefore,
}

-- What stands in the block before its end mark.
abbrev body : Text
body = mark_begin ++ b'\n' ∷ snippet

-- The end mark starts nowhere in the body of the block, whatever follows the block.
body-none_before :
    (post : Text) → none_before mark_end (length body) (body ++ (mark_end ++ post)) ≡ true
unfolding none_before mark_begin mark_end snippet
body-none_before post = refl

mark_lengths : length mark_end ≤ length mark_begin
unfolding mark_begin mark_end
mark_lengths = omega arith

block-append : (post : Text) → block ++ post ≡ body ++ (mark_end ++ b'\n' ∷ post)
unfolding block
block-append post = simp append_assoc

block_starts :
    (post : Text) → block ++ post ≡ mark_begin ++ (b'\n' ∷ (snippet ++ (mark_end ++ b'\n' ∷ post)))
unfolding block
block_starts post = simp append_assoc

-- A text around our block in which no mark stands before the block's own.
record IsMerged (base post : Text) : Type 0 where
  no_begin : NoneBefore mark_begin (length base) (base ++ (block ++ post))
  no_end : NoneBefore mark_end (length base) (base ++ (block ++ post))

find-mark_begin :
    (base post : Text)
    → IsMerged base post
    → find (base ++ (block ++ post)) mark_begin ≡ some (length base)
find-mark_begin base post m =
    find_at mark_begin (base ++ (block ++ post)) (length base)
      (omega (arith, length-append base (block ++ post))) m.no_begin
      (rw (drop-length-append base (block ++ post), block_starts post)
        (starts_with-append mark_begin _))

find-mark_end :
    (base post : Text)
    → IsMerged base post
    → find (base ++ (block ++ post)) mark_end ≡ some (length (base ++ body))
find-mark_end base post m =
    let before =
      none_before→NoneBefore mark_end (length body) _ (body-none_before (b'\n' ∷ post)) in
    rw (block-append post) (
      find_at mark_end (base ++ (body ++ (mark_end ++ b'\n' ∷ post))) (length (base ++ body))
        (omega (
          arith,
          length-append base body,
          length-append base (body ++ (mark_end ++ b'\n' ∷ post)),
          length-append body (mark_end ++ b'\n' ∷ post),
        ))
        (NoneBefore-append mark_end base body (mark_end ++ b'\n' ∷ post)
          (rw (block-append post) at m.no_end) before)
        (rw
          (← append_assoc base body _, drop-length-append (base ++ body) (mark_end ++ b'\n' ∷ post))
          (starts_with-append mark_end _)))

behind_block :
    (base post : Text)
    → drop (length (base ++ body) + length mark_end) (base ++ (block ++ post)) ≡ b'\n' ∷ post
behind_block base post =
    rw
      (
        block-append post,
        ← append_assoc base body _,
        ← append_assoc (base ++ body) mark_end _,
        ← length-append (base ++ body) mark_end,
      )
      (drop-length-append (base ++ body ++ mark_end) (b'\n' ∷ post))

body-length : (base : Text) → ltb (length base) (length (base ++ body)) ≡ true
body-length base =
    ground (arith, length-append base body, length-append mark_begin (b'\n' ∷ snippet))

skip_newline_at : (post : Text) → skip_newline (b'\n' ∷ post) ≡ post
unfolding skip_newline starts_with
skip_newline_at post = refl

merge-IsMerged :
    (base post : Text)
    → IsMerged base post
    → merge_custom_cfg (base ++ (block ++ post)) ≡ base ++ (block ++ post)
unfolding merge_custom_cfg
merge-IsMerged base post m =
    rw (find-mark_begin base post m, find-mark_end base post m)
      (rw body-length (
        rw (behind_block base post, take-length-append base (block ++ post), skip_newline_at post)))

-- The file holds neither mark, or both with the begin mark first.
abbrev pub MarksInOrder : Text → Type 0
MarksInOrder s =
    (find s mark_begin ≡ none) × (find s mark_end ≡ none)
    ⊎ ((b : ℕ) × (e : ℕ) × (find s mark_begin ≡ some b) × (find s mark_end ≡ some e) × (b < e))

-- The merged file, as what stands before and behind our block.
abbrev Merged : Text → Type 0
Merged s =
    (base : Text) × (post : Text) × (merge_custom_cfg s ≡ base ++ (block ++ post))
    × IsMerged base post

marks_plain :
    (starts_with [] mark_begin ≡ false)
    × (starts_with [] mark_end ≡ false)
    × (has_char b'\n' mark_begin ≡ false)
    × (has_char b'\n' mark_end ≡ false)
unfolding starts_with has_char mark_begin mark_end
marks_plain = (refl, refl, refl, refl)

length_line : (a : Text) → length (a ++ b'\n' ∷ []) ≡ suc (length a)
length_line a = omega (arith, length-append a (b'\n' ∷ []))

-- Our block behind a line that had no newline yet, and behind one that had.
IsMerged-newline :
    (a : Text)
    → NoneBefore mark_begin (length a) a
    → NoneBefore mark_end (length a) a
    → IsMerged (a ++ b'\n' ∷ []) []
IsMerged-newline a p q =
    let (nb, ne, pb, pe) = marks_plain in
    record {
      no_begin = rw (length_line a, append_assoc) (NoneBefore-newline mark_begin nb pb a _ p);
      no_end = rw (length_line a, append_assoc) (NoneBefore-newline mark_end ne pe a _ q);
    }

IsMerged-after_newline :
    (a : Text)
    → NoneBefore mark_begin (suc (length a)) (a ++ b'\n' ∷ [])
    → NoneBefore mark_end (suc (length a)) (a ++ b'\n' ∷ [])
    → IsMerged (a ++ b'\n' ∷ []) []
IsMerged-after_newline a p q =
    let (nb, ne, pb, pe) = marks_plain in
    record {
      no_begin = rw (length_line a, append_assoc) (NoneBefore-after_newline mark_begin nb pb a _ p);
      no_end = rw (length_line a, append_assoc) (NoneBefore-after_newline mark_end ne pe a _ q);
    }

append_block-line :
    (s : Text) → ends_with s (b'\n' ∷ []) ≡ true → append_block s ≡ s ++ (block ++ [])
append_block-line [] h = rw append-nil
append_block-line (c ∷ s) h = rw (h, append-nil) refl

append_block-open :
    (c : ℕ) (s : Text)
    → ends_with (c ∷ s) (b'\n' ∷ []) ≡ false
    → append_block (c ∷ s) ≡ ((c ∷ s) ++ b'\n' ∷ []) ++ (block ++ [])
append_block-open c s h = rw (h, append-nil, append_assoc) refl

IsMerged-line :
    (s : Text)
    → find s mark_begin ≡ none
    → find s mark_end ≡ none
    → ends_with s (b'\n' ∷ []) ≡ true
    → IsMerged s []
IsMerged-line s p q h =
    let (a, e) = ends_with-true s (b'\n' ∷ []) h in
    rw e (
      IsMerged-after_newline a (find-none mark_begin _ (suc (length a)) (rw e at p))
        (find-none mark_end _ (suc (length a)) (rw e at q)))

Merged-append : (s : Text) → find s mark_begin ≡ none → find s mark_end ≡ none → Merged s
unfolding merge_custom_cfg
Merged-append [] p q = ([], [], rw (p, append-nil) refl, record { no_begin = tt; no_end = tt })
Merged-append (c ∷ s) p q = elim (Bool-cases (ends_with (c ∷ s) (b'\n' ∷ []))) [
  | inl line ↦ (c ∷ s, [], rw p (append_block-line (c ∷ s) line), IsMerged-line (c ∷ s) p q line)
  | inr open_line ↦ (
    (c ∷ s) ++ b'\n' ∷ [],
    [],
    rw p (append_block-open c s open_line),
    IsMerged-newline (c ∷ s) (find-none mark_begin (c ∷ s) (suc (length s)) p)
        (find-none mark_end (c ∷ s) (suc (length s)) q),
  )
]

-- Whatever follows the begin mark may be replaced.
IsMerged-replace :
    (a r post : Text)
    → NoneBefore mark_begin (length a) (a ++ (mark_begin ++ r))
    → NoneBefore mark_end (length a) (a ++ (mark_begin ++ r))
    → IsMerged a post
IsMerged-replace a r post p q = record {
  no_begin = rw block_starts (NoneBefore-local mark_begin a mark_begin r _ (omega arith) p);
  no_end = rw block_starts (NoneBefore-local mark_end a mark_begin r _ mark_lengths q);
}

Merged-replace :
    (s : Text) (b e : ℕ) → find s mark_begin ≡ some b → find s mark_end ≡ some e → b < e → Merged s
unfolding merge_custom_cfg
Merged-replace s b e p q h =
    let (bound, none_b, here) = find-some mark_begin s b p in
    let (_, none_e, _) = find-some mark_end s e q in
    let (r, at_b) = starts_with-true (drop b s) mark_begin here in
    let parts = sym (take-append-drop b s) ∙ ap (λ t. take b s ++ t) at_b in
    let n = length-take_le b s bound in
    (
      take b s,
      skip_newline (drop (e + length mark_end) s),
      rw (p, q, lt→ltb b e h) refl,
      IsMerged-replace (take b s) r _ (rw (n, ← parts) none_b)
          (rw (n, ← parts) (NoneBefore-le mark_end s b e (omega arith) none_e)),
    )

merged : (s : Text) → MarksInOrder s → Merged s
merged s (inl (p, q)) = Merged-append s p q
merged s (inr (b, e, p, q, h)) = Merged-replace s b e p q h

-- Where custom.cfg holds neither mark, or both with the begin mark first, a second merge changes
-- nothing.
pub merge-merge :
    (s : Text) → MarksInOrder s → merge_custom_cfg (merge_custom_cfg s) ≡ merge_custom_cfg s
merge-merge s h = let (base, post, e, m) = merged s h in rw e (merge-IsMerged base post m)
