-- ===== src/Prelude/Text.antt =====
-- Go strings as lists of code points of valid UTF-8, whose order is the bytewise order of `sort`
-- (as lists of bytes where the source indexes bytes), with the functions of Go's `strings`,
-- `slices` and `sort` packages that the workers call.
mod Order
mod Equality
mod Split
mod Trim
unfoldable pub use Equality.*
unfoldable pub use Order.*
unfoldable pub use Split.*
unfoldable pub use Trim.*
