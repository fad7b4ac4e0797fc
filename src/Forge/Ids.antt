-- ===== src/Forge/Ids.antt =====
-- The id of a new resource, as the Create handlers of internal/server/forge_server.go choose it.
use nico_core_mock.Env.{Env}
use nico_core_mock.GoMap.{GoMap, has}
use nico_core_mock.Prelude.{Option, String, given, if◌then◌else◌, value}

-- The caller's id; or else the well-known default, while nothing is stored under it; or else a
-- fresh one.
unfoldable pub choose_id {ℓ} : {V : Type ℓ} → Env → String → Option String → GoMap V → String
choose_id e default_id id m =
    if given id then value id else if has default_id m then e.uuid else default_id
