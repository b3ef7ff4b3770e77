-- ===== src/Text/Laws.antt =====
-- Equality, prefixes and suffixes of texts.
use mathlib.Core.List.{reverse-append, reverse-reverse}
use mathlib.Core.Option
use agenticlinux.Prelude.{
  ℕ, ◌≡◌, refl, ap, ◌∙◌, ◌↔◌, inl, inr, Bool, true, false, ◌&&◌, List, [], ◌∷◌, ◌++◌, reverse, some,
  arith, ◌==◌, Option-cases, All, &&_split,
}
use agenticlinux.Text.{
  Text, equal, starts_with, ends_with, strip_prefix, strip_suffix, has_char, all, contains,
}

pub equal_iff : (a b : Text) → (equal a b ≡ true) ↔ (a ≡ b)
unfolding equal
equal_iff (x ∷ a) (y ∷ b) = ground (arith, equal_iff a b)
equal_iff _ _ = ground arith

pub equal_refl : (a : Text) → equal a a ≡ true
equal_refl a = (equal_iff a a).1 refl

pub strip_prefix-append : (p r : Text) → strip_prefix (p ++ r) p ≡ some r
unfolding strip_prefix
strip_prefix-append [] r = refl
strip_prefix-append (x ∷ p) r = ground (arith, strip_prefix-append p r)

pub strip_prefix-some : (s p r : Text) → strip_prefix s p ≡ some r → s ≡ p ++ r
unfolding strip_prefix
strip_prefix-some s [] r h = ground arith
strip_prefix-some [] (x ∷ p) r h = ground arith
strip_prefix-some (c ∷ s) (x ∷ p) r h = ground (arith, strip_prefix-some s p r)

pub strip_suffix-append : (s p : Text) → strip_suffix (s ++ p) p ≡ some s
unfolding strip_suffix
strip_suffix-append s p =
    rw (reverse-append s p, strip_prefix-append (reverse p) (reverse s), reverse-reverse s) refl

map-some : (t r : Text) → Option.map reverse (some t) ≡ some r → reverse t ≡ r
map-some t r h = ground (arith, h)

pub strip_suffix-some : (s p r : Text) → strip_suffix s p ≡ some r → s ≡ r ++ p
unfolding strip_suffix
strip_suffix-some s p r h = elim (Option-cases (strip_prefix (reverse s) (reverse p))) [
  | inl e ↦ ground (arith, h, e)
  | inr (t, e) ↦
      let whole = strip_prefix-some (reverse s) (reverse p) t e in
      let back = ap reverse whole ∙ reverse-append (reverse p) t in
      cc (back, reverse-reverse s, reverse-reverse p, map-some t r (rw e at h))
]

pub starts_with-append : (p r : Text) → starts_with (p ++ r) p ≡ true
unfolding starts_with
starts_with-append [] [] = refl
starts_with-append [] (x ∷ r) = refl
starts_with-append (x ∷ p) r = ground (arith, starts_with-append p r)

pub starts_with-true : (s p : Text) → starts_with s p ≡ true → (r : Text) × (s ≡ p ++ r)
unfolding starts_with
starts_with-true s [] h = (s, refl)
starts_with-true [] (x ∷ p) h = ground (arith, h)
starts_with-true (c ∷ s) (x ∷ p) h =
    let (same, later) = &&_split (c == x) (starts_with s p) h in
    let (r, e) = starts_with-true s p later in (r, ground (arith, same))

pub ends_with-true : (s p : Text) → ends_with s p ≡ true → (a : Text) × (s ≡ a ++ p)
unfolding ends_with
ends_with-true s p h =
    let (r, e) = starts_with-true (reverse s) (reverse p) h in
    let back = ap reverse e ∙ reverse-append (reverse p) r in
    (reverse r, cc (back, reverse-reverse s, reverse-reverse p))

pub has_char-append :
    (c : ℕ) (a b : Text) → has_char c a ≡ false → has_char c b ≡ false → has_char c (a ++ b) ≡ false
unfolding has_char
has_char-append c [] b ha hb = hb
has_char-append c (x ∷ a) b ha hb = ground (arith, has_char-append c a b)

module _ {ℓ} {A : Type ℓ} (test : A → Bool) where
  pub all_iff : (l : List A) → (all test l ≡ true) ↔ All (λ x. test x ≡ true) l
  unfolding all
  all_iff [] = (λ _. tt, λ _. refl)
  all_iff (x ∷ l) = (
    λ h. ((&&_split (test x) (all test l) h).0, (all_iff l).0 (&&_split (test x) (all test l) h).1),
    λ h. rw (h.0, (all_iff l).1 h.1),
  )

  pub all-append : (a b : List A) → all test (a ++ b) ≡ (all test a && all test b)
  unfolding all
  all-append [] b = refl
  all-append (x ∷ a) b = ground (arith, all-append a b)

-- Text in which no character passes a test holds none that does.
pub has_char_of_all :
    (test : ℕ → Bool) (c : ℕ) (s : Text) → all test s ≡ true → test c ≡ false → has_char c s ≡ false
unfolding has_char all
has_char_of_all test c [] h t = refl
has_char_of_all test c (x ∷ s) h t =
    ground (arith, has_char_of_all test c s, ap test {x = x} {y = c})

pub contains-cons : (x : Text) (l : List Text) → contains (x ∷ l) x ≡ true
unfolding contains
contains-cons x l = rw (equal_refl x) refl
