-- ===== src/Csv.antt =====
-- csv/: the csv extension. The parser is generic in its handlers; Split, Convert and Input supply
-- them. The parts stand below each other: StrBuf, Parser, Text, Excerpt, then the three clients.
pub mod Parser
pub mod StrBuf
pub mod Text
pub mod Excerpt
pub mod Split
pub mod Convert
pub mod FieldWidth
pub mod Input
pub mod Functions
pub mod Variables
mod Tests
