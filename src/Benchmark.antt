-- ===== src/Benchmark.antt =====
-- scripts/benchmark_throughput.py: its records, and the evaluation that stands for the handler of the stream.
pub mod Records
pub mod Evaluate
pub mod Verdicts
