-- ===== src/Text/Order.antt =====
-- The order of Rust's `str` and paths of one directory: by characters, as by the bytes in UTF-8.
use agenticlinux.Prelude.{Bool, true, false, ◌&&◌, ◌||◌, List, [], ◌∷◌, ltb, ◌==◌, if◌then◌else◌}
use agenticlinux.Text.{Text}

-- `a < b`
unfoldable pub before : Text → Text → Bool
before [] [] = false
before [] (_ ∷ _) = true
before (_ ∷ _) [] = false
before (x ∷ xs) (y ∷ ys) = ltb x y || (x == y && before xs ys)

unfoldable pub insert_sorted : Text → List Text → List Text
unfolding before
insert_sorted s [] = s ∷ []
insert_sorted s (t ∷ ts) =
    let rest = insert_sorted s ts in if before t s then t ∷ rest else s ∷ t ∷ ts

-- `v.sort()`
unfoldable pub sort : List Text → List Text
unfolding insert_sorted
sort [] = []
sort (s ∷ ss) = insert_sorted s (sort ss)
