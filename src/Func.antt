-- ===== src/Func.antt =====
-- The code generator's state, squirrel/sqfuncstate.cpp: the instructions of sqopcodes.h, the
-- stack of targets and the local variables, the optimiser of `AddInstruction`, and the variables
-- that a function takes from the functions around it.
pub mod Instr
pub mod State
pub mod Targets
pub mod Emit
pub mod Fused
pub mod Joined
pub mod Snoc
pub mod Fits
pub mod Acts
pub mod Rules
pub mod Optimise
pub mod Frame
pub mod Represents
pub mod Refine
pub mod Runs
pub mod Bounds
pub mod Outers
pub mod Scopes
pub mod Names
pub mod Capture
mod Tests
