-- ===== src/Http.antt =====
-- The HTTP client's parsing of response headers and its encoding of paths, of src/Client.c. Text is the
-- list of its bytes.
pub mod Headers
pub mod Version
pub mod Url
pub mod Tests
