-- ===== src/Bytes.antt =====
-- The byte writers and readers at the top of src/metadata_codec.cpp. A `string &dst` is the bytes
-- written so far; a `const char *&p` is the bytes from `p` up to the end of the buffer.
pub mod Words
pub mod Reader
