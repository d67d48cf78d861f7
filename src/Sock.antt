-- ===== src/Sock.antt =====
-- The sockets: what is read from one and what is written to one (sockobj.cpp, with recvTcp and
-- sendVec of sockutil.cpp and readNode and writeNode of director.cpp).
pub mod Address
pub mod Calls
pub mod Read
pub mod Stream
pub mod Delivery
pub mod Write
pub mod Transfer
