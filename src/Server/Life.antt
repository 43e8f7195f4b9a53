-- ===== src/Server/Life.antt =====
-- A server from its creation to its destruction.
use tiny_mon.Base.{ℕ, ◌+◌, ◌≡◌, ◌==◌, if◌then◌else◌, Option, List, [], ◌∷◌}
use tiny_mon.Os.{Sys, Cmd, ◌>>=◌}
use tiny_mon.Os.Descriptors.{live}
use tiny_mon.Os.Ensures
use tiny_mon.Os.Ensures.{Ensures}
use tiny_mon.Clients.{Info}
use tiny_mon.Clients.Table.{ClientTable}
use tiny_mon.Server.{Server}
use tiny_mon.Server.Lifecycle.{socket_server_start, socket_server_destroy}
use tiny_mon.Server.Owns.{fds}

-- How often a descriptor occurs.
unfoldable pub times : ℕ → List ℕ → ℕ
times n [] = 0
times n (d ∷ ds) = (if d == n then 1 else 0) + times n ds

module _ (ct : ClientTable) where
  open ct use {Table, Shows}

  -- What stays open: clients of the server, and what was open before.
  abbrev pub Leaves : List ℕ → Sys → Type 0
  Leaves ds t =
      (xs : List Info) × ((n : ℕ) → times n (live t.trace) ≡ times n (fds xs) + times n ds)

  -- A server is created, started, and destroyed when it has returned.
  abbrev pub life : Cmd (Option (Server Table)) → Cmd (Unit {0})
  life create = do o ← create; (code, o') ← socket_server_start ct o; socket_server_destroy ct o'
