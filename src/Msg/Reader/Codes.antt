-- ===== src/Msg/Reader/Codes.antt =====
-- The return codes 0, -1 and -2 of MsgReader::parse of sockobj.cpp and of what it calls.
pub data Code : Type 0 where
  ok bad_header no_memory : Code
