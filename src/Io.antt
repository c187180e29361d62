-- ===== src/Io.antt =====
-- pkg/io: the binary reader and writer on which the wire format of every payload is built.
pub mod Bytes
pub mod Reader
pub mod Writer
pub mod Size
pub mod RoundTrip
pub mod Sticky
pub mod SizeAgreement
mod Examples
