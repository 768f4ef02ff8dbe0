-- ===== src/Events.antt =====
-- The event loop's parts: channels (koro/channel.h), the epoll instance of each task queue
-- (koro/epoll_poller.cpp) and the operations of `IOManager` on them (koro/io_manager.cpp).
pub mod Bits
pub mod Channel
pub mod Poller
pub mod Table
pub mod Manager
pub mod Strict
mod Examples
