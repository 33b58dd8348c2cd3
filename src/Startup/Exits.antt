-- ===== src/Startup/Exits.antt =====
-- How backend/src/main.rs may end: the errors and panics of its main thread, tasks and threads.
use denis.Base.{Option, none, some, List, [], ◌∷◌, ◌++◌}
use denis.Dns.Server.{ServerError}
use denis.Startup.Launch
use denis.Startup.Launch.{Fate}
use denis.Text.{Str, codes}

-- How the process may end: `main` returns an error, a panic ends it, or `exit(1)` after an error of
-- the server does.
pub data Exit : Type 0 where
  returned : Str → Exit
  panicked : Str → Exit
  exited : ServerError → Exit

-- What a panic of a thread or a task does: it ends that alone, or the process. Cargo.toml sets
-- `panic = "abort"` for the release build; other builds unwind.
pub data Panics : Type 0 where
  unwinds aborts : Panics

-- What becomes of the task of the management API.
pub data ApiTask : Type 0 where
  task_panicked : Str → ApiTask
  listening : ApiTask

-- The task that is spawned for the management API, with the errors of its binding and of serving.
abbrev pub api_task : Option Str → Option Str → ApiTask
api_task (some e) serve = task_panicked (codes "Cannot bind API listener")
api_task none (some e) = task_panicked (codes "API server error")
api_task none none = listening

abbrev pub ended_by : Option ServerError → List Exit
ended_by none = []
ended_by (some e) = exited e ∷ []

abbrev pub spawn_ends : Option Str → List Exit
spawn_ends none = []
spawn_ends (some e) = panicked (codes "spawn monoio worker thread") ∷ []

abbrev pub api_ends : Panics → ApiTask → List Exit
api_ends aborts (task_panicked message) = panicked message ∷ []
api_ends _ _ = []

abbrev pub fate_ends : Panics → Fate → List Exit
fate_ends aborts (Launch.panicked message) = panicked message ∷ []
fate_ends _ _ = []

unfoldable pub thread_ends : Panics → List Fate → List Exit
thread_ends panics [] = []
thread_ends panics (fate ∷ fates) = fate_ends panics fate ++ thread_ends panics fates
