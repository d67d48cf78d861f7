-- ===== src/Msg.antt =====
-- The message layer: buffers and headers (msgcenter.cpp, msgtype.h), and the reassembly of a byte
-- stream into messages (class MsgReader of sockobj.cpp).
pub mod Cache
pub mod Header
pub mod Reader
