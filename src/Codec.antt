-- ===== src/Codec.antt =====
-- internal/codec: the wire formats and the choice between them.
pub mod Format
