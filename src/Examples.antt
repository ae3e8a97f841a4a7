-- ===== src/Examples.antt =====
-- Concrete instances of what the development takes as parameters, and the theorems at concrete
-- inputs.
mod Codec
mod Formats
mod TaskFormats
mod World
mod Runs
mod SystemTests
mod FileTests
mod StorageTests
mod TypesTests
mod Accounts
mod Machine
mod FrameTests
mod FunctionTests
mod ExecutionTests
mod RoundTests
mod FrontendTests
