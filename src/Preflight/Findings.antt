-- ===== src/Preflight/Findings.antt =====
-- bootguard/src/preflight.rs: what a check finds.
use agenticlinux.Prelude.{Bool, true, false, List, [], ◌∷◌, if◌then◌else◌}
use agenticlinux.Text.{Text, codes}

pub record Finding : Type 0 where
  pub is_fatal : Bool
  pub msg : Text

unfoldable pub tag : Finding → Text
tag f = if f.is_fatal then codes "FAIL" else codes "note"

abbrev pub fatal : Text → Finding
fatal m = record { is_fatal = true; msg = m }

abbrev pub note : Text → Finding
note m = record { is_fatal = false; msg = m }

abbrev cons_fatal : Bool → Text → List Text → List Text
cons_fatal true m ms = m ∷ ms
cons_fatal false m ms = ms

-- `filter(|f| f.fatal).map(|f| f.msg)`
unfoldable pub fatal_messages : List Finding → List Text
fatal_messages [] = []
fatal_messages (f ∷ fs) = cons_fatal f.is_fatal f.msg (fatal_messages fs)
