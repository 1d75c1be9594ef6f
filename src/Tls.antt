-- ===== src/Tls.antt =====
-- The message formats of TLS 1.3 that the driver speaks, of src/Tls.c: parsers of what a server
-- sends, and builders of what the client sends. A buffer is the list of its bytes.
pub mod Wire
pub mod Hello
pub mod Certificate
pub mod Record
pub mod Signature
pub mod KeySchedule
pub mod Tests
