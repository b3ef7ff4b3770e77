-- ===== src/Tests/Hosts.antt =====
-- The system that the tests run on.
use agenticlinux.Prelude.{[], none, some}
use agenticlinux.Machine.Helpers.{Host, succeeded}

-- Every command succeeds, says nothing and changes no file; every path is an executable file.
abbrev pub quiet_host : Host
quiet_host = record {
  reply = λ _ _ _. succeeded [];
  leaves = λ _ _ w. w.files;
  leaves_dirs = λ _ _ w. w.dirs;
  filter = λ _ _ _ _. succeeded [];
  mode = λ _ _. some 33261;
  link = λ _ _. none;
  read_fault = λ _ _ _ _. none;
}
