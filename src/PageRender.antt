-- ===== src/PageRender.antt =====
-- src/pageRender.c: the handlers that answer with a page, an XML or a JSON text.
pub mod Services
pub mod Entries
pub mod Login
pub mod Users
pub mod Completion
pub mod Scans
pub mod Similar
pub mod DocFilter
pub mod Tests
