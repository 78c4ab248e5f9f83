-- ===== src/Lib.antt =====
-- A verification library for disks-rs: planning, writing and provisioning partitions.
--
-- The program and the files that model it (paths from the repository's root):
--   * crates/disks: block devices and their partitions (Disks/Defs: src/{disk,partition,mock,
--     loopback,lib}.rs), reading them from sysfs (Disks/Sysfs: src/{sysfs,partition,disk}.rs),
--     recognising them by their names and discovering them (Disks/Discovery: src/{scsi,nvme,mmc,
--     virt,loopback,lib}.rs), their texts (Disks/Display: src/{disk,partition}.rs), and the alignment
--     of positions and the texts of sizes (Sizing and Sizing/Text: src/sizing.rs).
--   * crates/partitioning: the planner, which keeps a list of pending changes over the partitions
--     that a disk has (Planner: src/planner.rs, one definition for each method, on the planner's
--     state; its descriptions are in Planner/Text); the allocation strategies, which turn requests for
--     sizes into additions (Strategy and Strategy/Text: src/strategy.rs); the writer, which validates
--     the changes and applies them to a device (Writer: src/writer.rs and src/blkpg.rs, whose calls of
--     the kernel are Writer/Blkpg); the
--     attributes of partitions (Attributes: src/attributes.rs) and the commands that make filesystems
--     (Formatter: src/formatter.rs); loop devices and sparse files (Loopback: src/loopback.rs and
--     src/sparsefile.rs).
--   * crates/types: the vocabulary of provisioning files (Types) and reading it from KDL nodes (Kdl).
--   * crates/provisioning: the parser of strategies (Provisioning/Commands and Provisioning/Parser)
--     and the provisioner, which tries strategies on a pool of devices (Provisioning/Provisioner,
--     with the map of assignments in its child Assigning and the plans in its child Final).
--   * crates/disktester: the program that provisions a loop device on a sparse file by the strategies
--     of a file (Disktester: src/main.rs).
--   * crates/superblock: recognising filesystems by their superblocks, their labels and identifiers
--     (Superblock), and the JSON configuration of LUKS2 (Superblock/Config).
-- A strategy calls the planner's operations; the provisioner builds a planner and a strategy for
-- each device and applies them; the writer takes a planner's changes and the device; disktester calls
-- the parser, the provisioner, the writer and the formatter one after the other.
--
-- How it is modelled. A method on a mutable object is an action on the object's state that ends with
-- a value or an error beside the new state, or with a panic (Base/Results); what was changed before
-- an error stays changed. Machine integers are natural numbers whose operations wrap around, as in
-- the release profile (Base/Words). Vectors and queues are lists, and a sort is a stable insertion
-- sort. A hash map is the list of its entries. The numbers of type f64 that are shown are fractions
-- whose operations round to 53 significant bits (Base/Float); a quotient by 0 is a case of its own.
--
-- Bounds and fuel. The loop that undoes all changes (Strategy, undo_while) runs on the number of
-- pending changes as fuel, and each round removes one. Printing a number runs on the number itself
-- and one more. The bits of a float are counted on 256 units, more than the numerators here have bits. Decoding UTF-8 runs on the number of bytes; each character takes one at least. The
-- provisioner's search runs on fuel for its depth of calls, one call for each device of the pool that
-- is not in use, and the chain of a strategy's parents on fuel that the caller gives; running out of
-- either is an outcome of its own: a strategy may inherit from itself, and then the program does not
-- end.
--
-- Parameters. The file system that devices are read from is Disks/Sysfs.FileSystem, and the classes
-- of characters and the regex crate are Disks/Discovery.Classes, with what is documented of them in
-- Disks/Names.IsDocumented; serde_json's parser is an argument in Superblock/Config. The gpt crate's
-- tables and partition types, the kernel's calls and the opening and closing of device files are fields of
-- Writer/Changes.Machine; the calls for loop devices and sparse files are fields of Loopback.System;
-- the kdl crate's documents are fields of Kdl.Kdl; the constants of partition types are
-- Types.GptTypes; the uuid crate's printing is an argument in Superblock/Labels. For disktester all of
-- these are fields of Disktester.Host, with the reading of files and the running of commands.
--
-- The unit tests of planner.rs, strategy.rs, formatter.rs, provisioner.rs and crates/disks/src/lib.rs
-- are run in the files UnitTests and in Disks/Defs; Provisioning/Document holds the document of
-- crates/provisioning/tests/use_whole_disk.kdl, on which Disktester/Examples runs apply_partitioning.
--
-- Not modelled: the log and what disktester prints; the code that serde, thiserror and miette derive,
-- but for the texts of the errors; the tests that read images of disks or the running system.
pub mod Base
pub mod Sizing
pub mod Disks
pub mod Types
pub mod Kdl
pub mod Attributes
pub mod Formatter
pub mod Planner
pub mod Strategy
pub mod Superblock
pub mod Writer
pub mod Loopback
pub mod Disktester
pub mod Provisioning
