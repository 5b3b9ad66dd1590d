-- ===== src/Tests.antt =====
-- Tests and the instances of the theorems at concrete inputs.
pub mod Memory
pub mod TableTests
pub mod KeyTests
pub mod TransTests
pub mod ServiceTests
pub mod StartTests
pub mod HrpcTests
pub mod QueryTests
pub mod SignTests
pub mod ElectionTests
pub mod CodeTests
