-- ===== src/Lib.antt =====
-- nico-core-mock: an in-memory mock of the Forge gRPC API of an infrastructure controller, with
-- a state file and an optional libvirt back end.
--
-- The program. cmd/nico-core-mock reads an inventory (internal/config) and calls Run of
-- internal/server/server.go. Run builds the server, NICoServerImpl of
-- internal/server/forge_server.go, lays the state file over it (internal/server/persist.go and
-- internal/statestore) and serves the Forge RPCs. A unary interceptor takes one lock for a
-- whole call, so calls are run one after the other; after each successful call of a mutating
-- method it writes the state file anew. Some handlers start goroutines on the provisioner of
-- internal/libvirt, which do not touch the server.
--
-- What models what.
-- - Prelude, Prelude/Lists: tests, options, counting in lists of texts.
-- - GoMap: Go maps with lookup, assignment, delete and range; GoMap/Laws, GoMap/Load,
--   GoMap/Keyed, GoMap/Each: their laws. The order in which a range visits the keys, and what
--   sort does, are a parameter, Runtime, whose laws say that each key is visited once and that
--   a sort keeps the elements.
-- - Message: the protobuf messages, of each the fields that a handler reads or writes; parts
--   that are only copied are opaque texts. Reply: a response, a status error or a panic.
-- - Env: what a call is given from outside: uuid, clock, random numbers, net, strings, mockdata
--   and the libvirt lookup. Server: the maps of NICoServerImpl and the jobs that were started.
-- - Forge: the handlers, a module per kind of object. Forge/Vpc is CreateVpc, UpdateVpc and so
--   on of internal/server/forge_server.go; Forge/Systems is
--   internal/server/operating_system.go, Forge/Types is internal/server/instance_type.go,
--   Forge/Instances/Address is the drawing of addresses of internal/server/utils.go. A handler
--   takes its request, nil as none, and gives the server afterwards and the reply.
-- - Config: internal/config/config.go: Config/Load is Load, Config/Machines the toProto
--   methods, Config/Capabilities and Config/Path its helpers; Config/Loaded and Config/Grouped
--   say what a Load gives, and Serve/Started what the server is that starts from it.
-- - Persist: applySnapshot and exportSnapshot. Statestore/Methods, Statestore/Wire and
--   Statestore/Disk: internal/statestore/methods.go and store.go, over a file system and
--   marshallers that are parameters with the laws their packages document.
-- - Rpc: all the modelled requests but those of tenant identity, the step that a request makes
--   (Rpc/Step), and what holds over all of them: Rpc/Consistent, Rpc/Frame (which persisted
--   maps a handler leaves alone), Rpc/Refused, Rpc/ReadOnly, Rpc/Peered and Rpc/Imaged.
-- - Serve: the start-up, the interceptor, and a sequence of calls with their saves.
--   Serve/Durable and Serve/Restart put everything together.
-- - Identity: tenant identity of internal/server/forge_server.go, a machine of its own, since
--   no other handler touches its two maps: Identity/Slots is identityOrgState, Identity/Crypto
--   the keys, documents and tokens over Go's packages as parameters (Tools, and Call for what
--   one call draws), Identity/Config, Identity/Delegate, Identity/Publish and Identity/Sign the
--   handlers, Identity/Calls a run of requests; Identity/Sound, Identity/Published,
--   Identity/Signed and Identity/Refused hold what is proved of it. Its handlers are not among
--   the requests of Rpc and Serve.
-- - Libvirt: internal/libvirt, apart from the server, whose jobs are only recorded:
--   Libvirt/Cache is internal/libvirt/imagecache.go for a single caller, Libvirt/Hypervisor
--   internal/libvirt/client.go and the daemon as a parameter, Libvirt/Domains
--   internal/libvirt/domains.go, Libvirt/Volumes and Libvirt/Release the volumes and
--   ReleaseMachine of internal/libvirt/provisioner.go, Libvirt/DomainXml the choices that
--   internal/libvirt/domain_xml.go makes among the disks of a domain, with Go's regular
--   expressions as a parameter.
-- - Example: a small mock with a disk on which the theorems are run.
--
-- Loops over slices are structural recursion on the list, loops over maps go over the list of
-- visited keys; nothing needs fuel. Numbers are natural numbers; the 32-bit arithmetic of
-- addresses is written out with its wrap-around.
--
-- A write through a pointer that a map holds is a put under the same key: every message is
-- decoded anew for each call, so no two keys share one.
--
-- Not modelled: the handlers that answer with constants (Version, SKUs, DPU services,
-- SetMaintenance), the made-up links of power shelves and switches, ProvisionMachine but for
-- its root volume, the rewriting of domain XML, virt-customize and concurrent downloads of
-- internal/libvirt, the command line, logging, error texts of single calls, and the save at
-- shutdown.
pub mod Prelude
pub mod GoMap
pub mod Reply
pub mod Message
pub mod Env
pub mod Server
pub mod Forge
pub mod Config
pub mod Persist
pub mod Rpc
pub mod Statestore
pub mod Serve
pub mod Libvirt
pub mod Example
pub mod Identity
