-- ===== src/Mapper.antt =====
-- The payload that an observable's node of OpenCTI is turned into (opencti/mapper.py).
pub mod Policy
pub mod Ranking
pub mod Labels
pub mod Payload
mod Order
mod Counts
pub mod Bounds
mod Answer
mod Sizes
mod Tests
