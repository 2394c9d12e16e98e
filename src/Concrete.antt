-- ===== src/Concrete.antt =====
-- Small implementations of the libraries that are parameters elsewhere, for the tests: a database
-- that is the list of its writes, gtid sets that are lists of numbers, an encoding of clusters, and a server on these.
pub mod Database
pub mod Sets
pub mod Serial
pub mod Server
pub mod Codec
pub mod Files
