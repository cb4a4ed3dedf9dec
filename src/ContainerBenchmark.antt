-- ===== src/ContainerBenchmark.antt =====
-- 03-stl-internals/exercises/ex1-container-benchmark/bench_containers.cpp: the benchmarks of the
-- standard containers and of Boost's maps.
pub mod Machine
pub mod Containers
pub mod Bench
pub mod Program
pub mod Search
pub mod Sums
pub mod StdMap
pub mod Agreement
pub mod Overflow
pub mod Values
pub mod SmallSums
pub mod LinearScan
pub mod Sections
pub mod Completes
mod Tests
