-- ===== src/Forge/Images/Paired.antt =====
-- The operating systems that the handlers of OS images keep beside the images, of
-- internal/server/forge_server.go and operating_system.go.
use nico_core_mock.Env.{Env}
use nico_core_mock.Forge.Images.{
  create_os_image, delete_os_image, identified, ready_image, update_os_image,
}
use nico_core_mock.Forge.Systems.{
  apply_operating_system_update, create_operating_system, created_system,
  ensure_operating_system_stub, stub_system, system_or_blank, update_operating_system,
}
use nico_core_mock.GoMap.{GoMap, delete, get, has, put}
use nico_core_mock.GoMap.Laws.{get-delete, get-put}
use nico_core_mock.Message.Compute.{
  CreateOperatingSystemRequest, OperatingSystem, OsImage, OsImageAttributes,
  UpdateOperatingSystemRequest,
}
use nico_core_mock.Prelude.{
  Bool-cases, Option, Option-cases, String, arith, empty_text, false, given, if◌then◌else◌, inl,
  inr, none, not, some, true, value, ◌&&◌, ◌==◌, ◌||◌, ◌≡◌,
}
use nico_core_mock.Server.{Server}

abbrev pub HasSystems : GoMap OsImage → GoMap OperatingSystem → Type 0
HasSystems osi oss = (k : String) → has k osi ≡ true → has k oss ≡ true

has-put :
    {V : Type 0} (k j : String) (v : V) (m : GoMap V) → has j (put k v m) ≡ (k == j || has j m)
has-put k j v m = ground (arith, get-put k j v m)

has-delete :
    {V : Type 0} (k j : String) (m : GoMap V) → has j (delete k m) ≡ (not (k == j) && has j m)
has-delete k j m = ground (arith, get-delete k j m)

-- A stored operating system is never removed by the update of a stub, and the stub is there after it.
has-ensure_operating_system_stub :
    (e : Env) (id j : String) (req : OsImageAttributes) (oss : GoMap OperatingSystem)
    → empty_text id ≡ false
    → has j (ensure_operating_system_stub e id req oss) ≡ (id == j || has j oss)
unfolding ensure_operating_system_stub
has-ensure_operating_system_stub e id j req oss h =
    rw h (has-put id j (stub_system e req (system_or_blank id (get id oss))) oss)

abbrev image_id : Env → OsImageAttributes → String
image_id e req = if given req.id then value req.id else e.uuid

pub create_os_image-HasSystems :
    (e : Env) (q : Option OsImageAttributes) (f : Server)
    → empty_text e.uuid ≡ false
    → HasSystems f.osi f.oss
    → HasSystems (create_os_image e q f).0.osi (create_os_image e q f).0.oss
unfolding create_os_image
create_os_image-HasSystems e none f u w = w
create_os_image-HasSystems e (some req) f u w =
    let nid = image_id e req in
    let attrs = identified nid req in
    elim (Bool-cases (has nid f.osi)) [
      | inl taken ↦ rw (taken, create_os_image) w
      | inr free ↦
          rw (free, create_os_image)
            (λ k h. ground (
              arith,
              has-put nid k (ready_image attrs) f.osi,
              has-ensure_operating_system_stub e nid k attrs f.oss (ground arith),
              w k,
            ))
    ]

pub update_os_image-HasSystems :
    (e : Env) (q : Option OsImageAttributes) (f : Server)
    → HasSystems f.osi f.oss
    → HasSystems (update_os_image e q f).0.osi (update_os_image e q f).0.oss
unfolding update_os_image
update_os_image-HasSystems e none f w = w
update_os_image-HasSystems e (some req) f w = elim (Bool-cases (given req.id)) [
  | inr bad ↦ rw (bad, update_os_image) w
  | inl named ↦
      rw (named, update_os_image)
        (elim (Option-cases (get (value req.id) f.osi)) [
          | inl missing ↦ rw missing w
          | inr (img, found) ↦ rw found (λ k h. ground (
            arith,
            has-put (value req.id) k (record img { attributes = some req }) f.osi,
            has-ensure_operating_system_stub e (value req.id) k req f.oss (ground arith),
            w k,
          ))
        ])
]

pub delete_os_image-HasSystems :
    (q : Option (Option String)) (f : Server)
    → HasSystems f.osi f.oss
    → HasSystems (delete_os_image q f).0.osi (delete_os_image q f).0.oss
unfolding delete_os_image
delete_os_image-HasSystems none f w = w
delete_os_image-HasSystems (some id) f w = elim (Bool-cases (given id)) [
  | inr bad ↦ rw (bad, delete_os_image) w
  | inl named ↦
      rw (named, delete_os_image)
        (elim (Bool-cases (has (value id) f.osi)) [
          | inr missing ↦ rw missing w
          | inl found ↦ rw found (λ k h.
              ground (arith, has-delete (value id) k f.osi, has-delete (value id) k f.oss, w k))
        ])
]

pub create_operating_system-HasSystems :
    (e : Env) (q : Option CreateOperatingSystemRequest) (f : Server)
    → HasSystems f.osi f.oss
    → HasSystems f.osi (create_operating_system e q f).0.oss
unfolding create_operating_system
create_operating_system-HasSystems e none f w = w
create_operating_system-HasSystems e (some req) f w =
    let os = created_system e req in λ k h. ground (arith, has-put (value os.id) k os f.oss, w k)

pub update_operating_system-HasSystems :
    (e : Env) (q : Option UpdateOperatingSystemRequest) (f : Server)
    → HasSystems f.osi f.oss
    → HasSystems f.osi (update_operating_system e q f).0.oss
unfolding update_operating_system
update_operating_system-HasSystems e none f w = w
update_operating_system-HasSystems e (some req) f w =
    elim (Option-cases (get (value req.id) f.oss)) [
      | inl missing ↦ λ k h. ground (arith, w k)
      | inr (os, found) ↦ λ k h.
          ground
            (arith, has-put (value req.id) k (apply_operating_system_update e req os) f.oss, w k)
    ]
