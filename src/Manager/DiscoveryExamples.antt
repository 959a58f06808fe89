-- ===== src/Manager/DiscoveryExamples.antt =====
-- src/module_manager.c: a discovery whose state file is malformed.
use digit.Base.{ℕ, ◌+◌, false, some, [], text}
use digit.Abi.{ok}
use digit.Manager.Discovery.{Discovery, Discovered}
use digit.Manager.Examples.{manager}

-- The loader and the report are counts here.
abbrev broken : Discovery ℕ ℕ
broken = record {
  id_max = 64;
  modules_path_size = 256;
  qualification_path_size = 256;
  open_file = λ path. some (record { content = text "broken"; read_error = false });
  scan = λ g loader path report. (ok, ([], (loader + 1, report + 1)));
}

abbrev state : Discovered ℕ ℕ
state = record { manager = manager; loader = 0; report = 0 }
