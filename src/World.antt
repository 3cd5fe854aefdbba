-- ===== src/World.antt =====
-- The globals of libSRPP (SRPP_functions.cpp, SRPPSession.hpp, Padding_Algorithms.cpp) as one state,
-- and the small operations on them.
pub mod Host
pub mod Defs
pub mod Agreement
pub mod Creation
pub mod Draws
pub mod Returns
pub mod Frames
pub mod Invariants
unfoldable pub use Defs.*
