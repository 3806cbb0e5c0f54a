-- ===== src/Text.antt =====
-- Text as the source's runtime sees it: a string is its sequence of UTF-16 code units, which
-- `length`, `<`, `sort` and the regular expressions of the source read.
mod Units
mod Order
mod Pattern
mod Timestamp
mod Faithful
unfoldable pub use Units.*
unfoldable pub use Order.*
unfoldable pub use Pattern.*
unfoldable pub use Timestamp.*
pub use Faithful.*
