-- ===== src/Preflight/Resolve.antt =====
-- `resolve_beneath` and `check_tool` of bootguard/src/preflight.rs. What the kernel tells of a path
-- (a symbolic link or not, and its target) is the Host's.
use agenticlinux.Prelude.{
  zero, suc, ℕ, Bool, true, false, ◌||◌, List, [], ◌∷◌, ◌++◌, reverse, Option, none, some,
  if◌then◌else◌,
}
use agenticlinux.Text.{Text, codes, equal, starts_with, is_empty}
use agenticlinux.Text.Split.{split}
use agenticlinux.Machine.Monad.{Machine}
use agenticlinux.Machine.Helpers.{Host}
use agenticlinux.Sys.Executable.{is_executable}
use agenticlinux.Preflight.Findings.{Finding, fatal}

-- A component that is no name: none between two slashes, or the current directory.
unfoldable pub is_no_name : Text → Bool
unfolding equal
is_no_name n = is_empty n || equal n (codes ".")

unfoldable pub kept_names : List Text → List Text
kept_names [] = []
kept_names (n ∷ ns) = let rest = kept_names ns in if is_no_name n then rest else n ∷ rest

-- The names of a path in their order, `..` among them; the source keeps them reversed, as a stack.
unfoldable pub names : Text → List Text
unfolding kept_names
names path = kept_names (split b'/' path)

-- `PathBuf::pop`: here the last name stands first.
abbrev pub popped : List Text → List Text
popped [] = []
popped (_ ∷ ns) = ns

unfoldable pub below : Text → List Text → Text
below root [] = root
below root (n ∷ ns) = below (root ++ (b'/' ∷ n)) ns

-- `root.join(&done).join(&n)`
abbrev pub path_of : Text → List Text → Text
path_of root done = below root (reverse done)

-- `root.join(done)`: the root alone gets a slash.
unfoldable pub join_done : Text → List Text → Text
join_done root [] = root ++ codes "/"
join_done root (n ∷ ns) = path_of root (n ∷ ns)

-- Where the names of a link's target are resolved from.
unfoldable pub link_base : Text → List Text → List Text
unfolding starts_with
link_base target done = if starts_with target (codes "/") then [] else done

-- What goes on behind a link, with the names to do and those done: nothing where no more links are
-- followed.
abbrev pub Follow : Type 0
Follow = Option (List Text → List Text → Option (List Text))

unfoldable pub followed : Follow → List Text → List Text → Option Text → Option (List Text)
followed none todo done target = none
followed (some next) todo done none = none
followed (some next) todo done (some target) = next (names target ++ todo) (link_base target done)

-- The next name `n`: a parent, a plain name, or a link.
unfoldable pub at_name :
    (List Text → Option (List Text))
    → Follow
    → List Text
    → List Text
    → Text
    → Bool
    → Option (Option Text)
    → Option (List Text)
at_name next follow todo done n true link = next (popped done)
at_name next follow todo done n false none = next (n ∷ done)
at_name next follow todo done n false (some target) = followed follow todo done target

module _ (link : Text → Option (Option Text)) (root : Text) where
  -- The loop up to the next link.
  unfoldable pub walk : Follow → List Text → List Text → Option (List Text)
  walk follow [] done = some done
  walk follow (n ∷ todo) done =
      at_name (walk follow todo) follow todo done n (equal n (codes ".."))
        (link (path_of root (n ∷ done)))

  -- The loop, with the number of links that may still be followed.
  unfoldable pub resolve_from : ℕ → List Text → List Text → Option (List Text)
  resolve_from zero = walk none
  resolve_from (suc links) = walk (some (resolve_from links))

abbrev pub joined : Text → Option (List Text) → Option Text
joined root none = none
joined root (some done) = some (join_done root done)

unfoldable pub resolve_beneath : Host → Text → Text → Machine → Option Text
resolve_beneath h root path w = joined root (resolve_from (λ p. h.link p w) root 40 (names path) [])

unfoldable pub found_tool : Host → Option Text → Machine → Bool
found_tool h none w = false
found_tool h (some p) w = is_executable h p w

abbrev pub missing_tool : Text → Bool → List Finding
missing_tool tool true = []
missing_tool tool false =
    fatal (
      codes "new image has no executable "
      ++ (tool ++ codes "; a trial boot could never be confirmed"))
    ∷ []

unfoldable pub check_tool : Host → Text → Text → Machine → List Finding
check_tool h deploy tool w = missing_tool tool (found_tool h (resolve_beneath h deploy tool w) w)
