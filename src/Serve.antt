-- ===== src/Serve.antt =====
-- internal/server/server.go: start-up from the inventory and the state file, and the interceptor
-- that runs each call under the lock and saves after it.
pub mod Durable
pub mod Restart
pub mod Started
use nico_core_mock.Env.{Env}
use nico_core_mock.Forge.Expect.Linked.{Inventory, load_from_inventory}
use nico_core_mock.Forge.Types.{load_default_instance_types}
use nico_core_mock.GoMap.{GoMap}
use nico_core_mock.Message.Compute.{InstanceType}
use nico_core_mock.Persist.{apply_snapshot, export_snapshot, persisted}
use nico_core_mock.Persist.Recovery.{fresh_server}
use nico_core_mock.Prelude.{
  Bool, List, Option, String, [], empty_text, if◌then◌else◌, none, not, some, ◌&&◌, ◌∷◌,
}
use nico_core_mock.Reply.{Ending, crashed, refused, returned}
use nico_core_mock.Rpc.Method.{full_method}
use nico_core_mock.Rpc.Request.{Request}
use nico_core_mock.Rpc.Step.{step}
use nico_core_mock.Server.{Server}
use nico_core_mock.Statestore.Disk.{FileSystem, load_file, save}
use nico_core_mock.Statestore.Methods.{is_mutating_method}
use nico_core_mock.Statestore.Wire.{Codecs}

-- `if len(nicoServer.it) == 0 { nicoServer.loadDefaultInstanceTypes() }`, given the map.
unfoldable pub with_types : Env → GoMap InstanceType → Server → Server
with_types e [] f = load_default_instance_types e f
with_types e (t ∷ ts) f = f

module _ {D Raw Doc : Type 0} (fs : FileSystem D Doc) (cs : Codecs Raw Doc)
    (state_file service : String) where
  -- `loadPersistedState`; `none` is an error, which ends the start-up.
  unfoldable pub load_persisted_state : D → Server → Option Server
  load_persisted_state d f =
      if empty_text state_file then some f else elim (load_file fs cs state_file d) [
        | none ↦ none
        | some snap ↦ some (apply_snapshot (some snap) f)
      ]

  -- The server that `Run` begins to serve with.
  unfoldable pub start : Env → Option Inventory → Bool → D → Option Server
  unfolding load_persisted_state with_types
  start e inv enabled d =
      elim (load_persisted_state d (load_from_inventory e inv (fresh_server enabled))) [
        | none ↦ none
        | some f ↦ some (with_types e f.it f)
      ]

  -- `persistState`
  unfoldable pub persist_state : Env → Server → D → D × Bool
  persist_state e f d = save fs cs state_file (some (export_snapshot e.go (persisted f))) d

  -- What the interceptor does after the handler. A failed save is only logged.
  unfoldable pub after_call : Env → Request → Ending → Server → D → D
  unfolding persist_state
  after_call e r (refused c) f d = d
  after_call e r crashed f d = d
  after_call e r returned f d =
      if not (empty_text state_file) && is_mutating_method (full_method service r)
      then (persist_state e f d).0
      else d

  unfoldable pub intercept : Env → Request → Server → D → Server × D × Ending
  unfolding after_call
  intercept e r f d = let (f', how) = step e r f in (f', after_call e r how f' d, how)

  -- Calls in the order in which they take the lock, each with what its environment gives it. A crash
  -- ends the process: what it had in memory is lost.
  unfoldable pub serve : List (Env × Request) → Server → D → Server × D
  unfolding intercept
  serve [] f d = (f, d)
  serve ((e, r) ∷ calls) f d =
      let (f', d', how) = intercept e r f d in
      elim how [ crashed ↦ (f, d') | returned ↦ serve calls f' d' | refused c ↦ serve calls f' d' ]
