-- ===== src/Config/Bounds.antt =====
-- The numbers in the configuration of bootguard/src/config.rs.
use agenticlinux.Prelude.{◌≤◌, Option, arith}
use agenticlinux.Text.{Text}
use agenticlinux.Config.{Config, Map, from_map, load}

pub record IsSane (c : Config) : Type 0 where
  pub some_attempt : 1 ≤ c.max_attempts
  pub few_attempts : c.max_attempts ≤ 20
  pub trial_long : 10 ≤ c.trial_timeout
  pub check_long : 1 ≤ c.check_timeout

pub from_map-IsSane : (m : Map) → IsSane (from_map m)
unfolding from_map
from_map-IsSane m = record {
  some_attempt = ground arith;
  few_attempts = ground arith;
  trial_long = ground arith;
  check_long = ground arith;
}

-- From any pair of files, readable or not, `load` gives at least one attempt and at most 20, a
-- trial of at least ten seconds and checks of at least one.
pub load-IsSane : (vendor admin : Option Text) → IsSane (load vendor admin)
unfolding load
load-IsSane vendor admin = from_map-IsSane _
