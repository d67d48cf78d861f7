-- ===== src/Node.antt =====
-- The nodes of the director (director.cpp): how one is closed.
pub mod Close
pub mod Deal
pub mod Director
pub mod Build
pub mod Epoll
pub mod Objects
