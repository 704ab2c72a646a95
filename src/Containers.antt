-- ===== src/Containers.antt =====
-- The containers of Concurrent/.
pub mod CircularQue
pub mod LookupTable
pub mod SafeQueue
pub mod SafeStack
pub mod Chains
pub mod LinkedQueue
pub mod WorkQueue
pub mod SinglePopPush
pub mod LockFreeStack
