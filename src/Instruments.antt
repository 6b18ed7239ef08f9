-- ===== src/Instruments.antt =====
-- internal/instruments: the ordinances that amend a law by reference, and their proof.
pub mod Gesetz
pub mod Chain
pub mod Evidence
pub mod VrefResolve
pub mod VrefProof
pub mod Family
pub mod Load
pub mod Ensure
