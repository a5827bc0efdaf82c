-- ===== src/Examples.antt =====
-- Concrete instances of the parameters of the model, and the theorems applied to them.
mod Scheme
mod Cantor
mod Trees
mod Keys
mod Accounts
mod Rollup
mod Blocks
mod Proofs
mod Layers
mod Curve
mod Proving
mod Strangers
mod Following
mod Whole
mod Commands
mod Turning
mod Settlement
mod Malleable
mod Confusion
