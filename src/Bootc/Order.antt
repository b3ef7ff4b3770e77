-- ===== src/Bootc/Order.antt =====
-- `parse_booted_is_default` of bootguard/src/bootc.rs is about the first deployment in the boot order.
use agenticlinux.Prelude.{
  ℕ, zero, suc, length, none, some, Option, Option-cases, ap, ◌≡◌, refl, ◌∙◌, sym, inl, inr, Bool,
  true, false, not, List, [], ◌∷◌, ◌++◌, arith, Bool-cases, ok, err, Result, All, ltb, ◌==◌, take,
  drop, take-append-drop, &&_split,
}
use agenticlinux.Text.{Text, codes, strip_prefix, has_char, has_text, find, starts_with}
use agenticlinux.Text.Laws.{starts_with-append, starts_with-true, strip_prefix-append}
use agenticlinux.Text.Split.{lines, split_whitespace}
use agenticlinux.State.Find.{find-some}
use agenticlinux.Bootc.{
  trim_stars, second_word, unindented, is_deployment, id_of, is_booted, first_deployment,
  parse_booted_is_default,
}
use agenticlinux.Bootc.Line.{
  stars, InOrder, NotInOrder, unindented_split, unindented_at, trim_stars_done, trim_stars_split,
  trim_stars_at, marks_fit,
}

has_char_split :
    (c : ℕ) (s : Text) → has_char c s ≡ true → (a : Text) × (b : Text) × (s ≡ a ++ c ∷ b)
unfolding has_char
has_char_split c [] h = absurd (cc h)
has_char_split c (x ∷ s) h = elim (Bool-cases (x == c)) [
  | inl e ↦ ([], s, ap (λ y. y ∷ s) (ground (arith, e)))
  | inr e ↦ let (a, b, f) = has_char_split c s (rw e at h) in (x ∷ a, b, ap (◌∷◌ x) f)
]

has_char_at : (c : ℕ) (a b : Text) → has_char c (a ++ c ∷ b) ≡ true
unfolding has_char
has_char_at c [] b = ground arith
has_char_at c (x ∷ a) b = ground (arith, has_char_at c a b)

find_start : (s p : Text) → starts_with s p ≡ true → find s p ≡ some 0
unfolding find
find_start [] p h = rw h refl
find_start (c ∷ s) p h = rw h refl

find_inside : (a b p : Text) → (k : ℕ) × (find (a ++ (p ++ b)) p ≡ some k)
unfolding find
find_inside [] b p = (0, find_start (p ++ b) p (starts_with-append p b))
find_inside (c ∷ a) b p = elim (Bool-cases (starts_with (c ∷ (a ++ (p ++ b))) p)) [
  | inl e ↦ (0, find_start (c ∷ (a ++ (p ++ b))) p e)
  | inr e ↦ let (k, f) = find_inside a b p in (suc k, rw (e, f) refl)
]

has_text-false : (s p : Text) → has_text s p ≡ false → (a b : Text) → ¬ (s ≡ a ++ (p ++ b))
unfolding has_text
has_text-false s p h a b e =
    let (k, f) = find_inside a b p in
    let found : (has_text s p ≡ true) = ap (λ x. has_text x p) e ∙ rw (has_text, f) refl in
    cc (found, h)

has_text_inside : (s p : Text) → has_text s p ≡ true → (a : Text) × (b : Text) × (s ≡ a ++ (p ++ b))
unfolding has_text
has_text_inside s p h = elim (Option-cases (find s p)) [
  | inl e ↦ absurd (cc (rw (has_text, e) at h))
  | inr (k, e) ↦
      let (_, _, there) = find-some p s k e in
      let (b, f) = starts_with-true (drop k s) p there in
      (take k s, b, sym (take-append-drop k s) ∙ ap (λ x. take k s ++ x) f)
]

not_inside : (s p : Text) → ((a b : Text) → ¬ (s ≡ a ++ (p ++ b))) → has_text s p ≡ false
not_inside s p none_such = elim (Bool-cases (has_text s p)) [
  | inl e ↦ let (a, b, f) = has_text_inside s p e in absurd (none_such a b f)
  | inr e ↦ e
]

second_word-some :
    (ws : List Text) {id : Text}
    → second_word ws ≡ some id
    → (root : Text) × (behind : List Text) × (ws ≡ root ∷ id ∷ behind)
second_word-some [] h = absurd (cc h)
second_word-some (r ∷ []) h = absurd (cc h)
second_word-some (r ∷ i ∷ ws) h = (r, ws, cc h)

deployment_some :
    (l : Text) (o : Option Text)
    → is_deployment l o ≡ true
    → (id : Text) × (o ≡ some id)
      × (has_char b'.' id ≡ true)
      × (has_text l (codes "(staged)") ≡ false)
deployment_some l none h = absurd (cc h)
deployment_some l (some id) h =
    let (dot, staged) = &&_split (has_char b'.' id) (not (has_text l (codes "(staged)"))) h in
    (id, refl, dot, ground (arith, staged))

booted_marks :
    (n : ℕ) (rest : Text)
    → strip_prefix rest (codes "* ") ≡ none
    → starts_with (stars n ++ rest) (codes "* ") ≡ ltb 0 n
unfolding starts_with
booted_marks zero rest e = elim (Bool-cases (starts_with rest (codes "* "))) [
  | inl s ↦
      let (r, f) = starts_with-true rest (codes "* ") s in
      absurd
        (cc (sym e ∙ ap (λ x. strip_prefix x (codes "* ")) f ∙ strip_prefix-append (codes "* ") r))
  | inr s ↦ s
]
booted_marks (suc n) rest e = ground arith

-- What the code takes for a deployment in the boot order is one.
deployment-InOrder :
    (l : Text) → is_deployment l (id_of l) ≡ true → (n : ℕ) × InOrder l n × (is_booted l ≡ ltb 0 n)
deployment-InOrder l h =
    let t = unindented l in
    let rest = trim_stars (length t) t in
    let (indent, blank, splits, no_blank) = unindented_split l in
    let (n, s) = trim_stars_split (length t) t in
    let (id, second, dot, staged) = deployment_some l (id_of l) h in
    let (root, behind, words) = second_word-some (split_whitespace rest) second in
    let no_mark = trim_stars_done (length t) t (omega arith) in
    (
      n,
      record {
        indent = indent;
        rest = rest;
        blank = blank;
        splits = splits ∙ ap (λ x. indent ++ x) s;
        no_blank = λ r e. no_blank r (s ∙ e);
        no_mark = λ r e. cc (
            sym no_mark
            ∙ ap (λ x. strip_prefix x (codes "* ")) e
            ∙ strip_prefix-append (codes "* ") r);
        root = root;
        id = id;
        behind = behind;
        words = words;
        dotted = has_char_split b'.' id dot;
        not_staged = has_text-false l (codes "(staged)") staged;
      },
      ap (λ x. starts_with x (codes "* ")) s ∙ booted_marks n rest no_mark,
    )

InOrder-deployment : (l : Text) (n : ℕ) → InOrder l n → is_deployment l (id_of l) ≡ true
InOrder-deployment l n d =
    let (a, b, dot) = d.dotted in
    let t =
      ap unindented d.splits ∙ unindented_at d.indent (stars n ++ d.rest) d.blank d.no_blank in
    let rest =
      ap (λ x. trim_stars (length x) x) t
      ∙ trim_stars_at n (length (stars n ++ d.rest)) d.rest d.no_mark (marks_fit n d.rest) in
    let id = ap (λ x. second_word (split_whitespace x)) rest ∙ ap second_word d.words in
    ap (is_deployment l) id
    ∙ rw (not_inside l (codes "(staged)") d.not_staged, dot, has_char_at b'.' a b) refl

-- The lines split at the first deployment in the boot order.
pub record FirstInOrder (ls : List Text) (booted : Bool) : Type 0 where
  pub before : List Text
  pub line : Text
  pub behind : List Text
  pub splits : ls ≡ before ++ (line ∷ behind)
  pub passed : All NotInOrder before
  pub marks : ℕ
  pub in_order : InOrder line marks
  pub marked : booted ≡ ltb 0 marks

-- An answer is about the first deployment in the boot order; an error means that there is none.
abbrev pub Decides : List Text → Result Bool → Type 0
Decides ls (ok b) = FirstInOrder ls b
Decides ls (err e) = All NotInOrder ls

not_in_order : (l : Text) → is_deployment l (id_of l) ≡ false → NotInOrder l
not_in_order l e n d = cc (e, InOrder-deployment l n d)

found_later :
    (l : Text) (ls : List Text) (r : Result Bool) → NotInOrder l → Decides ls r → Decides (l ∷ ls) r
found_later l ls (ok b) p f = record {
  before = l ∷ f.before;
  line = f.line;
  behind = f.behind;
  splits = ap (◌∷◌ l) f.splits;
  passed = (p, f.passed);
  marks = f.marks;
  in_order = f.in_order;
  marked = f.marked;
}
found_later l ls (err e) p f = (p, f)

first_deployment-Decides : (ls : List Text) → Decides ls (first_deployment ls)
unfolding first_deployment
first_deployment-Decides [] = tt
first_deployment-Decides (l ∷ ls) = elim (Bool-cases (is_deployment l (id_of l))) [
  | inl here ↦
      let (n, d, b) = deployment-InOrder l here in
      rw here (record {
        before = [];
        line = l;
        behind = ls;
        splits = refl;
        passed = tt;
        marks = n;
        in_order = d;
        marked = b;
      })
  | inr passed ↦
      rw passed (
        found_later l ls (first_deployment ls) (not_in_order l passed)
          (first_deployment-Decides ls))
]

-- An answer is about the first line of a deployment in the boot order, and tells whether a mark of the
-- booted deployment stands before it; an error means that no line is one. Such a line has, behind
-- blanks and marks, two words or more, the second one with a dot, and does not say `(staged)`.
pub parse_booted_is_default-Decides :
    (out : Text) → Decides (lines out) (parse_booted_is_default out)
unfolding parse_booted_is_default
parse_booted_is_default-Decides out = first_deployment-Decides (lines out)
