-- ===== src/Rpc/Consistent/Fresh.antt =====
-- What the handlers rely on: `uuid.NewString` never returns "", and
-- `mockdata.EnsureMachineDiscoveryInfo` keeps the id of the machine.
use nico_core_mock.Env.{Env}
use nico_core_mock.Forge.Ids.{choose_id}
use nico_core_mock.GoMap.{GoMap}
use nico_core_mock.Message.Compute.{Machine}
use nico_core_mock.Prelude.{Option, String, arith, empty_text, false, ◌≡◌}

pub record IsFresh (e : Env) : Type 0 where
  pub uuid : empty_text e.uuid ≡ false
  pub ensured : (x : Machine) → (e.ensure_discovery x).id ≡ x.id

-- The id that is chosen is not "", as the default is not.
pub choose_id-nonempty {ℓ} :
    {V : Type ℓ} (e : Env) (d : String) (id : Option String) (m : GoMap V)
    → empty_text e.uuid ≡ false
    → empty_text d ≡ false
    → empty_text (choose_id e d id m) ≡ false
unfolding choose_id
choose_id-nonempty e d id m u h = ground arith
