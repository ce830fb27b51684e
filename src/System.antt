-- ===== src/System.antt =====
-- The whole of one instance: main.go's entry points, its goroutines and what happens around it, each as a
-- step that runs alone.
pub mod Safe
pub mod Pool
pub mod Steps
pub mod Race
pub mod Reuse
