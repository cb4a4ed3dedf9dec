-- ===== src/HotAlloc.antt =====
-- 04-cache-and-memory/exercises/ex3-hot-path-alloc/hot_alloc.hpp. What allocates and frees in its two
-- classes is a placeholder in the source, and is so here.
mod Arena
mod ObjectPool
