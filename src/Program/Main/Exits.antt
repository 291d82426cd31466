-- ===== src/Program/Main/Exits.antt =====
-- How the program exits.
use tracy_query.Prelude.{Bool, true, false, List, Result, ok, err}
use tracy_query.Visit.Worker.{Trace}
use tracy_query.Program.Load.{Loading, loaded}

-- What Tracy's library makes of a file is a Worker.
abbrev pub is_loaded : Loading → Bool
is_loaded (loaded worker first last) = true
is_loaded _ = false

abbrev is_ok : Result (List Trace) → Bool
is_ok (ok traces) = true
is_ok (err message) = false
