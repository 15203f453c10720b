-- ===== src/Examples/Waiting.antt =====
-- A database that never answers, and one that answers the second ping.
use jumble.Shared.{none, some, arith, leb, if◌then◌else◌}
use jumble.Go.Error.{plain}
use jumble.Sqldb.{Context, Db}
use jumble.Sqldb.Waiting.{Sleeps}

abbrev pub silent : Db
silent = record {
  ping = λ attempt t. (some (plain "connection refused"), 1000000);
  select_true = λ t. none;
  sleep = λ d. d;
}

abbrev pub background : Context
background = record { deadline = none; err_at = λ t. none }

pub sleeps : Sleeps silent
sleeps d = omega arith

abbrev pub waking : Db
waking = record {
  ping = λ attempt t.
      if leb 2 attempt then (none, 1000000) else (some (plain "connection refused"), 1000000);
  select_true = λ t. none;
  sleep = λ d. d;
}
