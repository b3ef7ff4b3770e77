-- ===== src/Preflight/ResolveLaws.antt =====
-- What `resolve_beneath` of bootguard/src/preflight.rs finds lies beneath the root.
use agenticlinux.Prelude.{
  ℕ, zero, suc, ◌≡◌, refl, Bool, true, false, List, [], ◌∷◌, ◌++◌, Option, none, some, All,
  All-append, Bool-cases, inl, inr, some_injective, sym, ◌==◌,
}
use agenticlinux.Text.{Text, codes, equal, has_char, starts_with}
use agenticlinux.Text.Split.{split, cons_head}
use agenticlinux.Machine.Monad.{Machine}
use agenticlinux.Machine.Helpers.{Host}
use agenticlinux.Preflight.Resolve.{
  is_no_name, kept_names, names, popped, path_of, join_done, link_base, Follow, followed, at_name,
  walk, resolve_from, resolve_beneath, joined,
}

-- A component of a path: not empty, not `.`, and without a slash.
abbrev IsPart : Text → Type 0
IsPart n = (has_char b'/' n ≡ false) × (is_no_name n ≡ false)

-- Names, the last one first, none of which is `..` or leads to a symbolic link.
abbrev pub Plain : (Text → Option (Option Text)) → Text → List Text → Type 0
Plain link root [] = Unit
Plain link root (n ∷ ns) =
    IsPart n
    × (equal n (codes "..") ≡ false)
    × (link (path_of root (n ∷ ns)) ≡ none)
    × Plain link root ns

abbrev Lacks : ℕ → Text → Type 0
Lacks c s = has_char c s ≡ false

cons_head-Lacks :
    (c x : ℕ) (ls : List Text)
    → (x == c) ≡ false
    → All (Lacks c) ls
    → All (Lacks c) (cons_head x ls)
unfolding has_char
cons_head-Lacks c x [] e h = (rw e refl, tt)
cons_head-Lacks c x (l ∷ ls) e h = (rw e h.0, h.1)

split-Lacks : (c : ℕ) (s : Text) → All (Lacks c) (split c s)
unfolding split has_char
split-Lacks c [] = (refl, tt)
split-Lacks c (x ∷ s) = elim (Bool-cases (x == c)) [
  | inl same ↦ rw same (refl, split-Lacks c s)
  | inr other ↦ rw other (cons_head-Lacks c x (split c s) other (split-Lacks c s))
]

kept_names-IsPart : (ns : List Text) → All (Lacks b'/') ns → All IsPart (kept_names ns)
unfolding kept_names
kept_names-IsPart [] h = tt
kept_names-IsPart (n ∷ ns) h = elim (Bool-cases (is_no_name n)) [
  | inl none_here ↦ rw none_here (kept_names-IsPart ns h.1)
  | inr name ↦ rw name ((h.0, name), kept_names-IsPart ns h.1)
]

names-IsPart : (path : Text) → All IsPart (names path)
unfolding names
names-IsPart path = kept_names-IsPart (split b'/' path) (split-Lacks b'/' path)

module _ (link : Text → Option (Option Text)) (root : Text) where
  popped-Plain : (done : List Text) → Plain link root done → Plain link root (popped done)
  popped-Plain [] h = tt
  popped-Plain (n ∷ ns) (_, _, _, h) = h

  link_base-Plain :
      (target : Text) (done : List Text)
      → Plain link root done
      → Plain link root (link_base target done)
  unfolding link_base
  link_base-Plain target done h = elim (Bool-cases (starts_with target (codes "/"))) [
    | inl absolute ↦ rw absolute tt
    | inr relative ↦ rw relative h
  ]

  -- Whatever is done behind a link, the names stay plain.
  abbrev Stays : (List Text → Option (List Text)) → Type 0
  Stays next = (done r : List Text) → Plain link root done → next done ≡ some r → Plain link root r

  abbrev Follows : Follow → Type 0
  Follows none = Unit
  Follows (some next) = (todo : List Text) → All IsPart todo → Stays (next todo)

  followed-Stays :
      (follow : Follow) (todo : List Text) (target : Option Text)
      → Follows follow
      → All IsPart todo
      → Stays (λ done. followed follow todo done target)
  unfolding followed
  followed-Stays none todo target f t done r h e = cc
  followed-Stays (some next) todo none f t done r h e = cc
  followed-Stays (some next) todo (some target) f t done r h e =
      f (names target ++ todo) (All-append IsPart (names target) todo (names-IsPart target) t)
        (link_base target done) r (link_base-Plain target done h) e

  at_name-Stays :
      (next : List Text → Option (List Text)) (follow : Follow) (todo done : List Text) (n : Text)
      (parent : Bool) (l : Option (Option Text)) (r : List Text)
      → Stays next
      → Follows follow
      → All IsPart todo
      → IsPart n
      → Plain link root done
      → equal n (codes "..") ≡ parent
      → link (path_of root (n ∷ done)) ≡ l
      → at_name next follow todo done n parent l ≡ some r
      → Plain link root r
  unfolding at_name
  at_name-Stays next follow todo done n true l r s f t p h up at e =
      s (popped done) r (popped-Plain done h) e
  at_name-Stays next follow todo done n false none r s f t p h up at e =
      s (n ∷ done) r (p, up, at, h) e
  at_name-Stays next follow todo done n false (some target) r s f t p h up at e =
      followed-Stays follow todo target f t done r h e

  walk-Stays :
      (follow : Follow) (todo : List Text)
      → Follows follow
      → All IsPart todo
      → Stays (walk link root follow todo)
  unfolding walk
  walk-Stays follow [] f t done r h e = rw (sym (some_injective e)) h
  walk-Stays follow (n ∷ todo) f t done r h e =
      at_name-Stays (walk link root follow todo) follow todo done n (equal n (codes ".."))
        (link (path_of root (n ∷ done))) r (walk-Stays follow todo f t.1) f t.1 t.0 h refl refl e

  resolve_from-Stays :
      (links : ℕ) (todo : List Text) → All IsPart todo → Stays (resolve_from link root links todo)
  unfolding resolve_from
  resolve_from-Stays zero todo t = walk-Stays none todo tt t
  resolve_from-Stays (suc links) todo t =
      walk-Stays (some (resolve_from link root links)) todo (resolve_from-Stays links) t

joined-some :
    (root : Text) (o : Option (List Text)) {p : Text}
    → joined root o ≡ some p
    → (done : List Text) × (o ≡ some done) × (p ≡ join_done root done)
joined-some root none h = cc
joined-some root (some done) h = (done, refl, sym (some_injective h))

-- What `resolve_beneath` finds is the root followed by names that are not empty, `.` or `..` and have
-- no slash, and at no step on the way down from the root is there a symbolic link: so whatever links
-- the tree holds, absolute ones and those with `..` in them, the path is beneath the root.
pub resolve_beneath-Plain :
    (h : Host) (root path : Text) (w : Machine) {found : Text}
    → resolve_beneath h root path w ≡ some found
    → (done : List Text) × (found ≡ join_done root done) × Plain (λ p. h.link p w) root done
unfolding resolve_beneath
resolve_beneath-Plain h root path w e =
    let link : Text → Option (Option Text) = λ p. h.link p w in
    let (done, at, same) = joined-some root (resolve_from link root 40 (names path) []) e in
    (done, same, resolve_from-Stays link root 40 (names path) (names-IsPart path) [] done tt at)
