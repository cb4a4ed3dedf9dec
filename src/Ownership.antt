-- ===== src/Ownership.antt =====
-- 02-modern-cpp/exercises/ex1-raii-ownership/ownership.hpp: the RAII wrappers.
pub mod ScopedFd
pub mod UniqueBuffer
pub mod ScopeGuard
