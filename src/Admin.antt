-- ===== src/Admin.antt =====
-- cmd/admin: the command line, from the arguments to the exit code. cobra is a parameter.
pub mod Laws
use jumble.Shared.{ℕ, String, Option, none, some, List, [], ◌∷◌, ◌++◌}
use jumble.Go.Error.{Error, Result, ok, err, text}
use jumble.Go.Action.{Action}
use jumble.Sqldb.Opening.{Driver}
use jumble.Migrations.{Migrator, Event, printed, Flags, default_flags, emits, pre_run, run}

-- What cobra makes of the arguments: the root command, the migrate command with its flags, a text
-- that it prints by itself, as for --help, or an error, as for an unknown flag.
pub data Call : Type 0 where
  root : Call
  migrate_command : Flags → Call
  prints : String → Call
  refused : Error → Call

pub record Cobra : Type 0 where
  pub find : (args : List String) → (defaults : Flags) → Call
  pub help : String  -- what rootCommand's Help prints
  pub usage : Error → String  -- what is printed when a command fails

module _ {Conn : Type 0} (driver : Driver Conn) (migrator : Migrator Conn) (cobra : Cobra) where
  -- cobra prints a command's error, and returns it.
  abbrev reported : Result (Unit {0}) × List (Event Conn) → Result (Unit {0}) × List (Event Conn)
  reported (ok done, events) = (ok done, events)
  reported (err e, events) = (err e, events ++ (printed (cobra.usage e) ∷ []))

  -- PreRunE, and RunE when that returns no error
  abbrev commanded : Option Error → Flags → Action (List (Event Conn)) (Unit {0})
  commanded none f events = run driver migrator f events
  commanded (some e) f events = (err e, events)

  -- the command that cobra has found
  abbrev called : Call → Action (List (Event Conn)) (Unit {0})
  called root events = emits (printed cobra.help) events
  called (migrate_command f) events = reported (commanded (pre_run f) f events)
  called (prints s) events = emits (printed s) events
  called (refused e) events = reported (err e, events)

  -- Execute
  unfoldable pub execute : List String → Action (List (Event Conn)) (Unit {0})
  execute args events = called (cobra.find args default_flags) events

  abbrev exits : Result (Unit {0}) × List (Event Conn) → ℕ × List (Event Conn)
  exits (ok done, events) = (0, events)
  exits (err e, events) = (1, events ++ (printed (text e) ∷ []))

  -- main: the exit code, and what was done
  unfoldable pub main : List String → ℕ × List (Event Conn)
  unfolding execute
  main args = exits (execute args [])
