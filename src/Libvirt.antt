-- ===== src/Libvirt.antt =====
-- internal/libvirt: the provisioner behind the instances.
pub mod Cache
pub mod Hypervisor
pub mod Domains
pub mod Volumes
pub mod Release
pub mod DomainXml
