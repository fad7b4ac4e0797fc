-- ===== src/Example/Booted.antt =====
-- A document of two disks, whose boot orders are 2 and 1.
use nico_core_mock.Libvirt.DomainXml.{
  Patterns, attribute_value, disk_blocks, disk_boot_order, is_boot_disk_candidate,
  select_boot_disk_index, select_from,
}
use nico_core_mock.Libvirt.DomainXml.BootDisk.{Best, candidates, select_boot_disk_index-Best}
use nico_core_mock.Prelude.{[], if◌then◌else◌, none, refl, some, ℕ, ◌==◌, ◌∷◌, ◌≡◌, ◌⊎◌}

abbrev patterns : Patterns
patterns = record {
  find_all_index = λ p s. (0, 1) ∷ (1, 2) ∷ [];
  first_group = λ p s. if p == "(?s)<boot\\b[^>]*order=['\"](\\d+)['\"]" then some s else none;
  quote_meta = λ x. x;
  scan_decimal = λ x. if x == "1" then 1 else 2;
  to_lower = λ x. x;
  equal_fold = λ a b. a == b;
  contains_text = λ a b. a == b;
}

select_boot_disk_index-Best_example :
    ((candidates patterns 0 (disk_blocks patterns "21") ≡ [])
      × (select_boot_disk_index patterns "21" ≡ none))
    ⊎ ((j : ℕ) × (select_boot_disk_index patterns "21" ≡ some j)
        × Best patterns (candidates patterns 0 (disk_blocks patterns "21")) j)
select_boot_disk_index-Best_example = select_boot_disk_index-Best patterns "21"

-- The second disk is selected.
second_selected : select_boot_disk_index patterns "21" ≡ some 1
unfolding select_boot_disk_index select_from is_boot_disk_candidate disk_boot_order attribute_value
second_selected = refl
