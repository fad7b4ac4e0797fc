-- ===== src/Libvirt/Domains.antt =====
-- internal/libvirt/domains.go and powerfilter.go: the domain of a machine, and its start and stop.
use nico_core_mock.Libvirt.Hypervisor.{Domain, Hypervisor, connects}
use nico_core_mock.Prelude.{
  Bool, List, Option, String, [], contains, empty_text, false, if◌then◌else◌, is_some, none, some,
  true, ◌&&◌, ◌++◌, ◌∷◌,
}

module _ {W : Type 0} (h : Hypervisor W) where
  unfoldable pub canonical_machine_id : String → String
  canonical_machine_id id = h.to_lower (h.trim_space id)

  unfoldable pub domain_ids : Domain → List String
  unfolding canonical_machine_id
  domain_ids domain =
      let name = h.trim_space domain.name in
      let formatted = h.format_uuid domain.uuid in
      (if empty_text name then [] else canonical_machine_id name ∷ [])
      ++ (if empty_text formatted then [] else canonical_machine_id formatted ∷ [])

  unfoldable pub first_with_id : String → List Domain → Option Domain
  unfolding domain_ids
  first_with_id id [] = none
  first_with_id id (domain ∷ domains) =
      let rest = first_with_id id domains in
      if contains id (domain_ids domain) then some domain else rest

  -- By the name, and else by any id of a domain. An error is `none`.
  unfoldable pub lookup_domain_by_machine_id : String → W → Option Domain
  unfolding canonical_machine_id first_with_id
  lookup_domain_by_machine_id machine_id w =
      let id = canonical_machine_id machine_id in
      if empty_text id then none else elim (h.domain_lookup_by_name id w) [
        | some domain ↦ some domain
        | none ↦ elim (h.list_all_domains w) [
          | none ↦ none
          | some domains ↦ first_with_id id domains
        ]
      ]

  unfoldable pub stop_domain_if_running : Domain → W → W × Bool
  stop_domain_if_running domain w = elim (h.domain_running domain w) [
    | none ↦ (w, false)
    | some running ↦ if running then h.domain_destroy domain w else (w, true)
  ]

  unfoldable pub start_domain : Domain → W → W × Bool
  start_domain domain w = elim (h.domain_running domain w) [
    | none ↦ (w, false)
    | some running ↦ if running then (w, true) else h.domain_create domain w
  ]

  -- `IsPoweredOn` of a `PowerFilter`
  unfoldable pub is_powered_on : String → String → W → Bool
  unfolding lookup_domain_by_machine_id connects
  is_powered_on endpoint machine_id w =
      connects h endpoint w && is_some (lookup_domain_by_machine_id machine_id w)
