-- ===== src/Parser.antt =====
-- src/parser/parser.hpp and src/parser/interface.hpp: the commands, and `parse`.
pub mod Args
pub mod Filled
pub mod Perms
pub mod Env
pub mod Desktop
pub mod Layer
pub mod Bind
pub mod Switches
pub mod Boot
pub mod Remote
pub mod Recipe
pub mod Instance
pub mod Overlay
pub mod Unshare
pub mod Version
pub mod Command
pub mod Words
pub mod RoundTrip
pub mod Lowered
pub mod Plain
