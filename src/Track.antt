-- ===== src/Track.antt =====
-- modules/track: the multi-object tracker, and the conversion of detections to its objects.
pub mod Person
pub mod Geometry
pub mod Match
pub mod Refresh
pub mod Sweep
pub mod Retire
pub mod Update
pub mod Run
pub mod Keeps
pub mod Bounds
pub mod Ids
pub mod Outcome
pub mod Matching
pub mod Total
pub mod Clock
pub mod Detect
pub mod Greedy
