-- ===== src/Framework.antt =====
-- server/framework: the status type, and the registries and services that keep named entries.
pub mod StatusCode
pub mod Status
pub mod Action
pub mod ServiceRegistry
pub mod SessionRegistry
pub mod DumpService
pub mod ControlService
pub mod PluginManager
pub mod PlatformRegistry
