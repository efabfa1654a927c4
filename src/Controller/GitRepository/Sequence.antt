-- ===== src/Controller/GitRepository/Sequence.antt =====
-- Whole passes of the GitRepository controller, and sequences of passes with changes by others
-- between them. `Calls`, `Passes`, `States` and `Pass` show that a pass
-- keeps what its calls keep.
pub mod Calls
pub mod Passes
pub mod States
pub mod Pass
pub mod Reach
pub mod Frames
pub mod Foreign
pub mod Program
pub mod Distinct
