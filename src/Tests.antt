-- ===== src/Tests.antt =====
-- The theorems at concrete images and command lines, and runs of the code.
mod Image
mod Library
mod Documents
mod OfDb
mod OfBwrap
mod OfRecipes
mod OfExecutor
mod OfReserved
mod OfFlags
mod OfLayers
mod OfParser
mod OfIcon
mod Zeros
mod OfSandbox
mod OfStart
mod OfBindings
mod OfRelocate
