-- ===== src/Tests.antt =====
-- The theorems at concrete inputs, and runs of the definitions.
mod Frames
mod Solver
mod Matches
mod Clock
mod Services
mod Uploads
mod Reports
mod Greedy
mod Channels
mod Strings
mod Detections
mod Faces
mod Cameras
mod Pipeline
mod Start
