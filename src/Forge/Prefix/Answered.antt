-- ===== src/Forge/Prefix/Answered.antt =====
-- GetVpcPrefixes of internal/server/forge_server.go on ids, stored or not.
use nico_core_mock.Persist.Key
use nico_core_mock.Env.{Env}
use nico_core_mock.Forge.Prefix.{
  get_vpc_prefixes, listed_prefixes, new_mock_vpc_prefix, prefixes_or_mock,
}
use nico_core_mock.GoMap.{GoMap, get}
use nico_core_mock.GoMap.Load.{IsKeyed}
use nico_core_mock.Message.Network.{VpcPrefix}
use nico_core_mock.Prelude.{
  List, Option, Option-cases, String, [], arith, inl, inr, map, refl, some, value, ◌∷◌, ◌≡◌,
}
use nico_core_mock.Reply.{ok}
use nico_core_mock.Server.{Server}

abbrev pub shown_id : VpcPrefix → String
shown_id p = value p.id

prefixes_or_mock-ids :
    (ids : List String) (vp : GoMap VpcPrefix)
    → IsKeyed Key.prefix_id vp
    → map shown_id (prefixes_or_mock ids vp) ≡ ids
unfolding prefixes_or_mock new_mock_vpc_prefix
prefixes_or_mock-ids [] vp w = refl
prefixes_or_mock-ids (id ∷ ids) vp w = elim (Option-cases (get id vp)) [
  | inl missing ↦ rw (missing, prefixes_or_mock) (ground (arith, prefixes_or_mock-ids ids vp w))
  | inr (p, found) ↦
      rw (found, prefixes_or_mock) (ground (arith, prefixes_or_mock-ids ids vp w, w.at id p found))
]

-- Where prefixes are stored under their own ids, GetVpcPrefixes of one or more ids answers with one
-- prefix for each of them, in their order, that has that id, whether it is stored or not.
pub get_vpc_prefixes-ids :
    (e : Env) (id : Option String) (ids : List (Option String)) (f : Server)
    → IsKeyed Key.prefix_id f.vp
    → (ps : List VpcPrefix) × (get_vpc_prefixes e (some (id ∷ ids)) f ≡ ok ps)
      × (map shown_id ps ≡ map value (id ∷ ids))
unfolding get_vpc_prefixes listed_prefixes
get_vpc_prefixes-ids e id ids f w = (
  prefixes_or_mock (map value (id ∷ ids)) f.vp,
  refl,
  prefixes_or_mock-ids (map value (id ∷ ids)) f.vp w,
)
