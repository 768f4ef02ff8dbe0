-- ===== src/Pool.antt =====
-- The thread pool of koro/thread_pool.h, and the callables it keeps, koro/inplace_function.hpp.
pub mod InplaceFunction
pub mod Workers
mod Examples
