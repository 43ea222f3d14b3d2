-- ===== src/Container.antt =====
-- The files of container/.
pub mod ChainHash
pub mod PChainMap
pub mod LruCache
pub mod PQueue
pub mod ResourceStack
pub mod DictContainer
pub mod SequenceRecorder
