-- ===== src/Example.antt =====
-- The example of the repository, which puts the parts of the program together.
pub mod Server
