-- ===== src/Padding.antt =====
-- The padding of libSRPP: the cache of dummies and the algorithms.
pub mod Cache
pub mod Algorithms
pub mod Cutting
pub mod Filling
pub mod Sizes
pub mod Draws
pub mod Filled
pub mod Padded
pub mod Dummies
pub mod Signals
pub mod FullBandwidth
