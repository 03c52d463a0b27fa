-- ===== src/Api.antt =====
-- frontend/src/api: what the console sends to the server and what it reads from the answers.
pub mod Types
pub mod Encoding
pub mod Errors
pub mod FolderUpload
pub mod Requests
pub mod Objects
pub mod Sites
pub mod Health
mod Tests
