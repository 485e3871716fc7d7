-- ===== src/Std.antt =====
-- What the program uses of Go's standard library: UTF-8 bytes, `%x`, FNV-1a and base64.
mod Bytes
mod Fnv
mod Base64
mod Lower
mod Trim
mod Sort
mod Tests
unfoldable pub use Bytes.*
unfoldable pub use Fnv.*
unfoldable pub use Base64.*
unfoldable pub use Lower.*
unfoldable pub use Trim.*
unfoldable pub use Sort.*
