-- ===== src/Hub.antt =====
-- crates/hub: the server that browsers and machines connect to.
pub mod Router
pub mod Mode
pub mod Composer
pub mod Events
pub mod Sessions
pub mod Groups
pub mod Layouts
pub mod Agents
pub mod Wire
pub mod Machines
pub mod Routes
mod Tests
