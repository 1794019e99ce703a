-- ===== src/Tests.antt =====
-- Runs of the definitions, and the theorems at concrete inputs.
mod Schedule
mod BarrierTests
mod PlatTests
mod ParsecTests
mod Pow2Tests
mod PgAllocTests
mod ErtTests
mod LifecycleTests
mod LockTests
mod NsTests
mod RemoteStackTests
mod RefillTests
mod RemoteTests
mod RingTests
mod SlabTests
mod SlabsTests
mod SmrTests
