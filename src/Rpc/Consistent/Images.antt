-- ===== src/Rpc/Consistent/Images.antt =====
-- The ids of stored OS images and operating systems.
use nico_core_mock.Persist.Key
use nico_core_mock.Env.{Env}
use nico_core_mock.Forge.Images.{
  create_os_image, delete_os_image, identified, ready_image, update_os_image,
}
use nico_core_mock.Forge.Systems.{
  apply_operating_system_update, create_operating_system, created_system,
  ensure_operating_system_stub, stub_system, system_or_blank, update_operating_system,
}
use nico_core_mock.GoMap.{GoMap, get, has}
use nico_core_mock.GoMap.Keyed.{IsKeyed-put}
use nico_core_mock.GoMap.Laws.{get-delete, get-put}
use nico_core_mock.GoMap.Load.{IsKeyed}
use nico_core_mock.Message.Compute.{
  CreateOperatingSystemRequest, OperatingSystem, OsImageAttributes, UpdateOperatingSystemRequest,
}
use nico_core_mock.Prelude.{
  Bool-cases, Option, Option-cases, String, arith, empty_text, eq_iff, false, given, if◌then◌else◌,
  inl, inr, none, refl, some, subst, sym, value, ◌≡◌, ◌⊎◌,
}
use nico_core_mock.Rpc.Consistent.Fresh.{IsFresh}
use nico_core_mock.Server.{Server}

system_or_blank-id :
    (id : String) (o : Option OperatingSystem)
    → ((x : OperatingSystem) → o ≡ some x → x.id ≡ some id)
    → (system_or_blank id o).id ≡ some id
system_or_blank-id id none h = refl
system_or_blank-id id (some x) h = h x refl

ensure_operating_system_stub-IsKeyed :
    (e : Env) (id : String) (req : OsImageAttributes) (oss : GoMap OperatingSystem)
    → IsKeyed Key.system oss
    → IsKeyed Key.system (ensure_operating_system_stub e id req oss)
unfolding ensure_operating_system_stub stub_system
ensure_operating_system_stub-IsKeyed e id req oss w = elim (Bool-cases (empty_text id)) [
  | inl b ↦ rw b w
  | inr b ↦ rw b (
      IsKeyed-put id (stub_system e req (system_or_blank id (get id oss))) oss w
        (system_or_blank-id id (get id oss) (λ x found. (w.at id x found).0)) b)
]

-- The id that a new image is stored under.
abbrev image_id : Env → OsImageAttributes → String
image_id e req = if given req.id then value req.id else e.uuid

image_id-nonempty :
    (e : Env) (req : OsImageAttributes) → IsFresh e → empty_text (image_id e req) ≡ false
image_id-nonempty e req fresh = ground (arith, fresh.uuid)

identified-id :
    (e : Env) (req : OsImageAttributes)
    → (identified (image_id e req) req).id ≡ some (image_id e req)
unfolding identified
identified-id e req = ground arith

pub create_os_image-IsKeyed :
    (e : Env) (q : Option OsImageAttributes) (f : Server)
    → IsFresh e
    → IsKeyed Key.image f.osi
    → IsKeyed Key.image (create_os_image e q f).0.osi
unfolding create_os_image
create_os_image-IsKeyed e none f fresh w = w
create_os_image-IsKeyed e (some req) f fresh w =
    let nid = image_id e req in
    elim (Bool-cases (has nid f.osi)) [
      | inl taken ↦ rw (taken, create_os_image) w
      | inr free ↦
          rw (free, create_os_image)
            (IsKeyed-put nid (ready_image (identified nid req)) f.osi w (identified-id e req)
              (image_id-nonempty e req fresh))
    ]

pub create_os_image-system-IsKeyed :
    (e : Env) (q : Option OsImageAttributes) (f : Server)
    → IsKeyed Key.system f.oss
    → IsKeyed Key.system (create_os_image e q f).0.oss
unfolding create_os_image
create_os_image-system-IsKeyed e none f w = w
create_os_image-system-IsKeyed e (some req) f w =
    let nid = image_id e req in
    elim (Bool-cases (has nid f.osi)) [
      | inl taken ↦ rw (taken, create_os_image) w
      | inr free ↦
          rw (free, create_os_image)
            (ensure_operating_system_stub-IsKeyed e nid (identified nid req) f.oss w)
    ]

pub update_os_image-IsKeyed :
    (e : Env) (q : Option OsImageAttributes) (f : Server)
    → IsKeyed Key.image f.osi
    → IsKeyed Key.image (update_os_image e q f).0.osi
unfolding update_os_image
update_os_image-IsKeyed e none f w = w
update_os_image-IsKeyed e (some req) f w =
    let id = value req.id in
    elim (Option-cases (get id f.osi)) [
      | inl missing ↦ record { at = λ k x p. ground (arith, w.at k x) }
      | inr (old, found) ↦ record {
        at = λ k x p. ground (
          arith,
          get-put id k (record old { attributes = some req }) f.osi,
          w.at k x,
          w.at id old,
          eq_iff id k,
        );
      }
    ]

-- On every branch the operating systems are as before, or brought up to date.
update_os_image-oss :
    (e : Env) (req : OsImageAttributes) (f : Server)
    → ((update_os_image e (some req) f).0.oss ≡ f.oss)
      ⊎ ((update_os_image e (some req) f).0.oss
          ≡ ensure_operating_system_stub e (value req.id) req f.oss)
unfolding update_os_image
update_os_image-oss e req f = ground arith

pub update_os_image-system-IsKeyed :
    (e : Env) (q : Option OsImageAttributes) (f : Server)
    → IsKeyed Key.system f.oss
    → IsKeyed Key.system (update_os_image e q f).0.oss
unfolding update_os_image
update_os_image-system-IsKeyed e none f w = w
update_os_image-system-IsKeyed e (some req) f w = elim (update_os_image-oss e req f) [
  | inl same ↦ subst (λ t. IsKeyed Key.system t) (sym same) w
  | inr stub ↦
      subst (λ t. IsKeyed Key.system t) (sym stub)
        (ensure_operating_system_stub-IsKeyed e (value req.id) req f.oss w)
]

pub delete_os_image-IsKeyed :
    (q : Option (Option String)) (f : Server)
    → IsKeyed Key.image f.osi
    → IsKeyed Key.image (delete_os_image q f).0.osi
unfolding delete_os_image
delete_os_image-IsKeyed none f w = w
delete_os_image-IsKeyed (some id) f w = record {
  at = λ k x p. ground (arith, get-delete (value id) k f.osi, w.at k x);
}

pub delete_os_image-system-IsKeyed :
    (q : Option (Option String)) (f : Server)
    → IsKeyed Key.system f.oss
    → IsKeyed Key.system (delete_os_image q f).0.oss
unfolding delete_os_image
delete_os_image-system-IsKeyed none f w = w
delete_os_image-system-IsKeyed (some id) f w = record {
  at = λ k x p. ground (arith, get-delete (value id) k f.oss, w.at k x);
}

created_system-id :
    (e : Env) (req : CreateOperatingSystemRequest)
    → IsFresh e
    → ((created_system e req).id ≡ some (value (created_system e req).id))
      × (empty_text (value (created_system e req).id) ≡ false)
unfolding created_system
created_system-id e req fresh = ground (arith, fresh.uuid)

pub create_operating_system-IsKeyed :
    (e : Env) (q : Option CreateOperatingSystemRequest) (f : Server)
    → IsFresh e
    → IsKeyed Key.system f.oss
    → IsKeyed Key.system (create_operating_system e q f).0.oss
unfolding create_operating_system
create_operating_system-IsKeyed e none f fresh w = w
create_operating_system-IsKeyed e (some req) f fresh w =
    let os = created_system e req in
    let id = value os.id in
    elim (Bool-cases (has id f.oss)) [
      | inl taken ↦ rw (taken, create_operating_system) w
      | inr free ↦
          rw (free, create_operating_system)
            (IsKeyed-put id os f.oss w (created_system-id e req fresh).0
              (created_system-id e req fresh).1)
    ]

pub update_operating_system-IsKeyed :
    (e : Env) (q : Option UpdateOperatingSystemRequest) (f : Server)
    → IsKeyed Key.system f.oss
    → IsKeyed Key.system (update_operating_system e q f).0.oss
unfolding update_operating_system apply_operating_system_update
update_operating_system-IsKeyed e none f w = w
update_operating_system-IsKeyed e (some req) f w =
    let id = value req.id in
    elim (Option-cases (get id f.oss)) [
      | inl missing ↦ record { at = λ k x p. ground (arith, w.at k x) }
      | inr (old, found) ↦ record {
        at = λ k x p. ground (
          arith,
          get-put id k (apply_operating_system_update e req old) f.oss,
          w.at k x,
          w.at id old,
          eq_iff id k,
        );
      }
    ]
