-- ===== src/Vm.antt =====
-- The virtual machine, squirrel/sqvm.cpp.
pub mod Machine
pub mod Same
pub mod Value
pub mod Arith
pub mod Compare
pub mod Division
pub mod Order
pub mod Execute
pub mod Sample
mod Tests
