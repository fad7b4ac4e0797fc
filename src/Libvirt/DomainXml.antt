-- ===== src/Libvirt/DomainXml.antt =====
-- internal/libvirt/domain_xml.go: which disks of a domain's XML are chosen, removed or named. The
-- regular expressions are Go's, given by their source text.
pub mod BootDisk
use Prim.Native.String.{◌++◌ as append, len, slice}
use nico_core_mock.Prelude.{
  Bool, List, Option, String, [], contains, empty_text, false, if◌then◌else◌, ltb, map, map_option,
  nat_eq, none, not, or_else, some, suc, true, value, ℕ, ◌&&◌, ◌==◌, ◌||◌, ◌∷◌,
}

-- `regexp` and `strings`. Positions are those of bytes.
pub record Patterns : Type 0 where
  -- `FindAllStringSubmatchIndex`, of each match its beginning and its end
  pub find_all_index : String → String → List (ℕ × ℕ)
  -- the first group of `FindStringSubmatch`, if it matches
  pub first_group : String → String → Option String
  -- `regexp.QuoteMeta`
  pub quote_meta : String → String
  -- `fmt.Sscanf` of "%d"; 0 where there is no number
  pub scan_decimal : String → ℕ
  pub to_lower : String → String
  pub equal_fold : String → String → Bool
  -- `strings.Contains(s, sub)`
  pub contains_text : String → String → Bool

-- `domainDiskPattern`
abbrev pub domain_disk_pattern : String
domain_disk_pattern = "(?s)<disk\\b[^>]*>.*?</disk>"

module _ (re : Patterns) where
  unfoldable pub attribute_value : String → String → String
  attribute_value tag name =
      value (re.first_group (append "\\b" (append (re.quote_meta name) "=['\"]([^'\"]*)['\"]")) tag)

  unfoldable pub is_cdrom_disk : String → Bool
  unfolding attribute_value
  is_cdrom_disk disk_xml = re.equal_fold (attribute_value disk_xml "device") "cdrom"

  unfoldable pub is_boot_disk_candidate : String → Bool
  unfolding attribute_value
  is_boot_disk_candidate disk_xml =
      let device = attribute_value disk_xml "device" in
      if empty_text device then true else re.to_lower device == "disk"

  unfoldable pub disk_boot_order : String → ℕ
  disk_boot_order disk_xml =
      elim (re.first_group "(?s)<boot\\b[^>]*order=['\"](\\d+)['\"]" disk_xml) [
        | none ↦ 0
        | some digits ↦ re.scan_decimal digits
      ]

  unfoldable pub disk_target_dev : String → String
  disk_target_dev disk_xml =
      value (re.first_group "(?s)<target\\b[^>]*\\bdev=['\"]([^'\"]+)['\"]" disk_xml)

  unfoldable pub disk_target_bus : String → String
  disk_target_bus disk_xml =
      value (re.first_group "(?s)<target\\b[^>]*\\bbus=['\"]([^'\"]+)['\"]" disk_xml)

  -- The disks of a document.
  abbrev pub disk_blocks : String → List String
  disk_blocks xml_desc =
      map (λ (loc : ℕ × ℕ). slice xml_desc loc.0 loc.1)
        (re.find_all_index domain_disk_pattern xml_desc)

  -- The loop of `selectBootDiskIndex` from the disk `i` on, with the disk that is selected so far
  -- and its order.
  unfoldable pub select_from : ℕ → Option (ℕ × ℕ) → List String → Option ℕ
  unfolding is_boot_disk_candidate disk_boot_order
  select_from i selected [] = map_option (λ (s : ℕ × ℕ). s.0) selected
  select_from i selected (block ∷ blocks) =
      let order = disk_boot_order block in
      let kept = select_from (suc i) selected blocks in
      let taken = select_from (suc i) (some (i, order)) blocks in
      if not (is_boot_disk_candidate block) then kept else elim selected [
        | none ↦ if nat_eq order 1 then some i else taken
        | some (s, selected_order) ↦
            if nat_eq order 1
            then some i
            else if nat_eq selected_order 1
            then kept
            else if ltb 0 order && (nat_eq selected_order 0 || ltb order selected_order)
            then taken
            else kept
      ]

  -- -1 is `none`.
  unfoldable pub select_boot_disk_index : String → Option ℕ
  unfolding select_from
  select_boot_disk_index xml_desc = select_from 0 none (disk_blocks xml_desc)

  -- What is left of the document from the position `last` on, without the CD-ROMs among the matches.
  unfoldable pub strip_from : String → ℕ → List (ℕ × ℕ) → String
  unfolding is_cdrom_disk
  strip_from xml_desc last [] = slice xml_desc last (len xml_desc)
  strip_from xml_desc last (loc ∷ matches) =
      let kept = strip_from xml_desc last matches in
      let stripped = strip_from xml_desc loc.1 matches in
      if is_cdrom_disk (slice xml_desc loc.0 loc.1)
      then append (slice xml_desc last loc.0) stripped
      else kept

  unfoldable pub any_cdrom : List String → Bool
  unfolding is_cdrom_disk
  any_cdrom [] = false
  any_cdrom (block ∷ blocks) = is_cdrom_disk block || any_cdrom blocks

  unfoldable pub strip_config_drive_disks : String → String × Bool
  unfolding strip_from any_cdrom
  strip_config_drive_disks xml_desc =
      let matches = re.find_all_index domain_disk_pattern xml_desc in
      if any_cdrom (disk_blocks xml_desc)
      then (strip_from xml_desc 0 matches, true)
      else (xml_desc, false)

  -- The first disk that passes a test, from the disk `i` on.
  unfoldable pub first_disk : (String → Bool) → ℕ → List String → Option ℕ
  first_disk test i [] = none
  first_disk test i (block ∷ blocks) =
      let rest = first_disk test (suc i) blocks in if test block then some i else rest

  -- The CD-ROM with the volume, and else any CD-ROM.
  unfoldable pub find_config_drive_disk_index : String → String → Option ℕ
  unfolding first_disk is_cdrom_disk
  find_config_drive_disk_index xml_desc vol_name =
      let blocks = disk_blocks xml_desc in
      or_else (first_disk (λ b. is_cdrom_disk b && re.contains_text b vol_name) 0 blocks)
        (first_disk is_cdrom_disk 0 blocks)

  unfoldable pub collect_used_target_devs : List String → List String
  unfolding disk_target_dev
  collect_used_target_devs [] = []
  collect_used_target_devs (block ∷ blocks) =
      let rest = collect_used_target_devs blocks in
      let dev = disk_target_dev block in if empty_text dev then rest else re.to_lower dev ∷ rest

  abbrev pub target_candidates : String → List String
  target_candidates bus =
      if re.to_lower bus == "ide"
      then "hda" ∷ "hdb" ∷ "hdc" ∷ "hdd" ∷ []
      else "sda" ∷ "sdb" ∷ "sdc" ∷ "sdd" ∷ "sde" ∷ "sdf" ∷ []

  unfoldable pub first_unused : String → List String → List String → String
  first_unused fallback used [] = fallback
  first_unused fallback used (c ∷ names) =
      let rest = first_unused fallback used names in if contains c used then rest else c

  -- The first candidate that is not used, and the first of all if every one is.
  unfoldable pub next_target_dev : String → List String → String
  unfolding first_unused
  next_target_dev bus used =
      first_unused (if re.to_lower bus == "ide" then "hda" else "sda") used (target_candidates bus)
