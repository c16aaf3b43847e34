-- ===== src/Application/Program.antt =====
-- cmd/main.go: the whole program, and how it exits.
use mhserver.Common.{ℕ, Bool, Option, List, Text, Outcome, ok, err, panic, blocked}
use mhserver.Os.{Os, OsError}
use mhserver.Config.Application.Loading.{Loader, new_application}
use mhserver.Application.{
  MainServer, SubServerRun, Served, StartError, all_servers, app_mode_of, run,
}

-- os.Exit(1) after an error.
abbrev exited : Outcome StartError (Unit {0}) → Outcome ℕ (Unit {0})
exited (ok _) = ok tt
exited (err e) = err 1
exited panic = panic
exited blocked = blocked

unfoldable pub program :
    {Db Conn : Type 0}
    → Loader
    → (Text → Option Db)
    → (Db → Bool)
    → (ℕ → Text)
    → (Text → Option Conn)
    → (MainServer Conn → Served (Option OsError))
    → (os : Os) → os.World
    → (SubServerRun os → Served (Unit {0}))
    → List Text
    → Outcome ℕ (Unit {0})
unfolding new_application run app_mode_of
program loader sql_open ping print new_client listen os w serve_grpc args =
    elim (new_application loader sql_open ping) [
      | ok app ↦
          exited (run print new_client listen os w serve_grpc (app_mode_of all_servers args) app.0)
      | err e ↦ err 1
      | panic ↦ panic
      | blocked ↦ blocked
    ]
