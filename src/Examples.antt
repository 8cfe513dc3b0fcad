-- ===== src/Examples.antt =====
-- Runs of the modelled code on small inputs.
mod Anchors
mod Budgets
mod FunctionCalls
mod Naive
mod Offload
mod Pools
mod Radix
mod Reasoning
mod Serving
mod States
