-- ===== src/Grbl/Parser.antt =====
-- src/grbl/parser.rs: the parsers of GRBL's answers. `Commands` has the helpers on command lines and
-- build info, `Settings` the settings and offsets, `Report` the status report.
pub mod Commands
pub mod Settings
pub mod Report
mod Tests
