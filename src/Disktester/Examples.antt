-- ===== src/Disktester/Examples.antt =====
-- The theorems on the whole program at a concrete host.
use disks_rs.Base.{
  Bool, Outcome, fail, panic, ℕ, ◌+◌, ◌*◌, ◌≡◌, refl, arith, ap, inl, inr, String, true, false,
  Option, none, some, List, [], ◌∷◌, ok, done, ◌==◌, length, drop, if◌then◌else◌,
}
use disks_rs.Disks.{FilePath, dev_path, root_dir, normal}
use disks_rs.Disks
use disks_rs.Disks.Discovery.{from_device_path}
use disks_rs.Loopback.Descriptors.{IsTracked}
use disks_rs.Writer.Answers.{IsAnswering}
use disks_rs.Writer.Gpt.{IsGpt}
use disks_rs.Writer.TableExamples.{look, look-without, known, entries}
use disks_rs.Disktester.{main, apply_partitioning, load_provisioning, strategies_path}
use disks_rs.Disktester.Kept.{MayHold, IsTidy}
use disks_rs.Disktester.Files.{main-MayHold}
use disks_rs.Types.{Constraints, PartitionTableType}
use disks_rs.Provisioning.Commands.{CreatePartition, CreatePartitionTable, FindDisk}
use disks_rs.Provisioning.OneDevice.{whole_disk}
use disks_rs.Disktester.Works.{IsProvisioned, apply_partitioning-IsProvisioned}
use disks_rs.Provisioning.Document.{use_whole_disk}
use disks_rs.Disktester.Sample.{World, system, machine, host, host_of, start}

system-IsTracked : IsTracked system (λ w. w.opened)
system-IsTracked = record {
  open_some = λ mode path w fd h. ground arith;
  open_none = λ mode path w h. ground arith;
  ioctl_kept = λ fd c w. refl;
  set_len_kept = λ fd size w. refl;
  closed = λ fd w. refl;
}

host-IsTidy : IsTidy host (λ w. w.opened)
host-IsTidy = record {
  tracked = system-IsTracked;
  machine_scoped = λ path. record {
    opens = λ b l w h. (length w.opened + 3, ap (◌∷◌ (length w.opened + 3)) h);
    closes = λ fd l w h. ap (drop 1) h;
    kept = λ l. record {
      flush_kept = λ w h. h;
      put_kept = λ s w h. h;
      create_kept = λ b w h. h;
      table_kept = λ b w h. h;
      place_kept = λ t w h. h;
      write_kept = λ t w h. h;
      sync_kept = λ w h. h;
      mbr_kept = λ n w h. h;
      ioctl_kept = λ x w h. h;
    };
  };
  output_kept = λ c w. refl;
}

main-MayHold_example : MayHold (λ v. v.opened ≡ []) (main host 2 1 start)
main-MayHold_example = main-MayHold host (λ w. w.opened) host-IsTidy 2 1 start

machine-IsAnswering : IsAnswering machine
machine-IsAnswering = record {
  opened = λ b w. (record w { opened = (length w.opened + 3) ∷ w.opened }, refl, refl);
  closed_same = λ w. refl;
  flushed = λ w. (w, refl, refl);
  stored = λ s w. refl;
  created = λ b w. ([], w, refl, refl);
  table_opened = λ b w. ((1, (34, 100)) ∷ [], w, refl, refl);
  placed = λ t w. (t, w, refl, refl);
  written = λ t w. (record w { device = record w.device { byte = λ i. 2 } }, refl, refl);
  synced = λ w. (w, refl, refl);
  overwritten = λ n w. (w, refl, refl);
  disk_read = λ w. (known, refl);
  table_read = λ w. (entries, refl);
  answered = λ x w. refl;
  called = λ x w. refl;
}

machine-IsGpt : IsGpt machine look 8192
machine-IsGpt = record {
  laws = record {
    look-add = λ name id start count type t u h j. ground arith;
    look-remove = look-without;
  };
  created_empty = λ b w v t h j. ground arith;
  placed_same = λ t u w v h j. ground arith;
  accepts = λ name id start count type t a b c d e f g. ((id, (start, count)) ∷ t, refl);
}

-- What the two commands of the strategy ask for.
abbrev created : String → CreatePartition
created id = record {
  disk = "root";
  id = id;
  role = none;
  partition_type = none;
  constraints = Constraints.exact (1024 * 1024);
  filesystem = none;
}

abbrev partitions : List (ℕ × CreatePartition)
partitions = (1024 * 1024, created "boot") ∷ (1024 * 1024, created "home") ∷ []

abbrev gpt_table : CreatePartitionTable
gpt_table = record { table_type = PartitionTableType.gpt; disk = "root" }

abbrev root : FindDisk
root = record { name = "root"; constraints = none }

loaded :
    load_provisioning host strategies_path start
    ≡ ok (whole_disk "whole" "Wipe" root gpt_table partitions ∷ [])
unfolding load_provisioning disks_rs.Kdl.get_property_str disks_rs.Kdl.table_from_kdl_property
    disks_rs.Types.table_from_str disks_rs.Provisioning.Commands.read_option
    disks_rs.Kdl.constraints_from_kdl_node disks_rs.Kdl.get_kdl_entry
    disks_rs.Kdl.kdl_value_to_storage_size disks_rs.Kdl.kdl_value_to_integer
    disks_rs.Kdl.unit_from_kdl_type disks_rs.Types.unit_from_str disks_rs.Base.mul64
    disks_rs.Base.Int.to_u64 disks_rs.Types.factor
loaded = refl

-- The loop device with its image.
abbrev loop7 : Disks.LoopDevice
loop7 = record {
  name = "loop7";
  device = dev_path "loop7";
  file = some (root_dir ∷ normal "image" ∷ []);
  disk = some (record {
    name = "loop7";
    sectors = 8192;
    device = dev_path "loop7";
    model = none;
    vendor = none;
    partitions = [];
  });
}

found : from_device_path host.classes (host.files start) (dev_path "loop7") ≡ some loop7
unfolding from_device_path disks_rs.Disks.Discovery.loop_from_sysfs_path disks_rs.Disks.Sysfs.read
    disks_rs.Disks.Sysfs.path_of disks_rs.Disks.Sysfs.basic_from_sysfs_path disks_rs.Base.Parse.trim
    disks_rs.Base.Parse.parse_unsigned
found = refl

apply_partitioning-IsProvisioned_example :
    IsProvisioned host look 8192 "whole" "Wipe" root gpt_table partitions loop7 start
      (apply_partitioning host 2 1 (dev_path "loop7") start)
unfolding Disks.size disks_rs.Sizing.is_aligned disks_rs.Base.mul64
    disks_rs.Provisioning.Provisioner.fits
apply_partitioning-IsProvisioned_example =
    apply_partitioning-IsProvisioned host look 8192 "whole" "Wipe" root gpt_table partitions loop7 0
      0 start machine-IsAnswering machine-IsGpt (λ c w. ("", "", refl, refl)) loaded found refl refl
      refl (omega arith) ((refl, omega arith), ((refl, omega arith), tt)) (omega arith)
      (omega arith)

abbrev is_done : {E A : Type 0} → Option (Outcome E World A) → Bool
is_done (some (done a w)) = true
is_done _ = false

-- The repository's own strategy succeeds on the image of 32 GiB.
whole_disk_done :
    is_done (
      apply_partitioning (host_of use_whole_disk "67108864\n") 2 1 (dev_path "loop7") (record {
        opened = [];
        device = record { size = 34359738368; byte = λ i. 1; position = 0 };
      }))
    ≡ true
unfolding disks_rs.Provisioning.Parser.new_for_path disks_rs.Provisioning.Provisioner.plan
    disks_rs.Kdl.get_property_str disks_rs.Kdl.constraints_from_kdl_node disks_rs.Kdl.get_kdl_entry
    disks_rs.Kdl.kdl_value_to_storage_size disks_rs.Kdl.kdl_value_to_integer
    disks_rs.Kdl.unit_from_kdl_type disks_rs.Types.unit_from_str
    disks_rs.Kdl.table_from_kdl_property disks_rs.Types.table_from_str
    disks_rs.Kdl.role_from_kdl_property disks_rs.Types.role_from_str
    disks_rs.Provisioning.Commands.read_option disks_rs.Kdl.type_kdl_from_kdl_type
    disks_rs.Types.type_kdl_from_str disks_rs.Kdl.type_guid_from_kdl_node
    disks_rs.Types.type_guid_from_str disks_rs.Kdl.Nodes.filesystem_from_kdl_node
    disks_rs.Types.filesystem_type_from_str disks_rs.Base.mul64 disks_rs.Base.add64
    disks_rs.Base.add32 disks_rs.Base.sub64 disks_rs.Base.Int.to_u64 disks_rs.Types.factor
    disks_rs.Disks.size disks_rs.Disks.sectors disks_rs.Planner.layout_of disks_rs.Planner.place
    disks_rs.Planner.plan_add_partition_with_attributes disks_rs.Sizing.align_down
    disks_rs.Sizing.align_up disks_rs.Sizing.is_aligned disks_rs.Strategy.flexible_pass
    disks_rs.Strategy.exact_pass disks_rs.Planner.with_start_offset disks_rs.Planner.with_end_offset
    disks_rs.Provisioning.Provisioner.add_strategy disks_rs.Provisioning.Provisioner.push_device
    disks_rs.Provisioning.Provisioner.new disks_rs.Strategy.apply disks_rs.Strategy.new
    disks_rs.Planner.plan_initialize_disk apply_partitioning load_provisioning
    disks_rs.Disks.Discovery.loop_from_sysfs_path disks_rs.Disks.Sysfs.read
    disks_rs.Disks.Sysfs.path_of disks_rs.Disks.Sysfs.basic_from_sysfs_path disks_rs.Base.Parse.trim
    disks_rs.Base.Parse.parse_unsigned disks_rs.Disktester.apply_plan disks_rs.Disktester.write_each
    disks_rs.Disktester.run_each disks_rs.Writer.Changes.simulate disks_rs.Writer.Changes.write
    disks_rs.Writer.Changes.sync_gpt_partitions disks_rs.Writer.zero_partition_prefix
    disks_rs.Writer.zero_disk_headers disks_rs.Provisioning.Commands.attributes
whole_disk_done = refl
