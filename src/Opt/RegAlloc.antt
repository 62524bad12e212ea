-- ===== src/Opt/RegAlloc.antt =====
-- src/opt/RegAlloc.cpp: liveness, interference and the choice of registers.
pub mod Liveness
pub mod Graph
pub mod Colour
pub mod Choice
pub mod Valid
pub mod Complete
pub mod Growth
pub mod Solved
pub mod Needed
pub mod Sound
mod Tests
