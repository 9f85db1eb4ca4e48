-- ===== src/Bytes.antt =====
-- Go byte slices, for every package: reading and writing parts of a slice, and
-- `encoding/binary`'s little-endian integers. A `[]byte` is a list of numbers below 256.
mod Copy
mod Endian
mod Writes
unfoldable pub use Copy.*
unfoldable pub use Endian.*
unfoldable pub use Writes.*
