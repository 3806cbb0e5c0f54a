-- ===== src/Json.antt =====
-- JSON values as the source's runtime holds them, the text of `JSON.stringify`, and a reader of it.
mod Tree
mod Print
mod Keys
pub mod Read
pub mod RoundTrip
unfoldable pub use Tree.*
unfoldable pub use Print.*
unfoldable pub use Keys.*
