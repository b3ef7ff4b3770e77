-- ===== src/Text/OrderLaws.antt =====
-- The order of texts is a strict one, and total.
use agenticlinux.Prelude.{◌≡◌, refl, true, false, [], ◌∷◌, arith}
use agenticlinux.Text.{Text, equal}
use agenticlinux.Text.Order.{before}

pub before_trans : (a b c : Text) → before a b ≡ true → before b c ≡ true → before a c ≡ true
unfolding before
before_trans [] [] c h k = cc
before_trans [] (y ∷ b) [] h k = cc
before_trans [] (y ∷ b) (z ∷ c) h k = refl
before_trans (x ∷ a) [] c h k = cc
before_trans (x ∷ a) (y ∷ b) [] h k = cc
before_trans (x ∷ a) (y ∷ b) (z ∷ c) h k = ground (arith, h, k, before_trans a b c)

pub before_total : (a b : Text) → equal a b ≡ false → before a b ≡ false → before b a ≡ true
unfolding before equal
before_total [] [] e h = cc
before_total [] (y ∷ b) e h = cc
before_total (x ∷ a) [] e h = refl
before_total (x ∷ a) (y ∷ b) e h = ground (arith, e, h, before_total a b)
