-- ===== src/Program/Main.antt =====
-- `main` of src/main.cpp. What the arguments are parsed to is given; `writable` tells whether the
-- output takes what is written, `OutputError` being what ends the program otherwise.
pub mod Exits
use tracy_query.Prelude.{
  ℕ, Bool, true, false, ◌&&◌, not, Option, none, some, List, [], ◌∷◌, ◌++◌, if◌then◌else◌, Result,
  ok, err, Text, codes,
}
use tracy_query.Model.{Command, Options}
use tracy_query.Query.Matcher.{Search}
use tracy_query.Visit.Worker.{Trace}
use tracy_query.Commands.Info.{Capture}
use tracy_query.Commands.Run.{Ran, run_command}
use tracy_query.Program.Load.{Loading, load_traces}

-- `ParseResult`: the program ends at once, or it has options.
pub data Parsed : Type 0 where
  exits : ℕ → Text → Bool → Parsed
  runs : Options → Parsed

pub record Exit : Type 0 where
  pub status : ℕ
  pub output : Text
  pub diagnostics : Text

abbrev diagnostic : Text → Text
diagnostic message = codes "tracy-query: " ++ (message ++ (0x0a ∷ []))

abbrev verifies : Command → Bool
verifies Command.check = false
verifies _ = true

module _ (format_double format_float : ℕ → Text) (compile : Bool → Text → Result Search)
    (capture_of : Trace → Capture) (load : Text → Loading) (writable : Bool) where
  abbrev pub exit_of : Options → Ran → Exit
  exit_of options ran = elim ran.failure [
    | some message ↦ record {
      status = 1;
      output = ran.output;
      diagnostics = ran.diagnostics ++ diagnostic message;
    }
    | none ↦
        if verifies options.command && not writable
        then record { status = 0; output = []; diagnostics = ran.diagnostics }
        else record { status = 0; output = ran.output; diagnostics = ran.diagnostics }
  ]

  unfoldable pub main : Parsed → Exit
  unfolding load_traces run_command
  main (exits status message to_stderr) =
      if to_stderr
      then record { status = status; output = []; diagnostics = message }
      else record { status = status; output = message; diagnostics = [] }
  main (runs options) = elim (load_traces load options.traces) [
    | err message ↦ record { status = 1; output = []; diagnostics = diagnostic message }
    | ok traces ↦
        exit_of options (run_command format_double format_float compile capture_of options traces)
  ]
