-- ===== src/Xml.antt =====
-- xml/: the xml extension, from the encodings over the puller, which makes tokens of a file.
pub mod Puller
mod Tests
pub mod Encodings
