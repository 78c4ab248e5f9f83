-- ===== src/Writer/ProgressExamples.antt =====
-- The theorems on writing what was planned at a concrete machine.
use disks_rs.Base.{All, ℕ, ◌≡◌, refl, arith, true, false, none, some, List, [], ◌∷◌, ok, done}
use disks_rs.Disks.{mock_device, new_mock}
use disks_rs.Attributes.{PartitionAttributes}
use disks_rs.Planner.{Change, Planner, layout_of, plan_add_partition_with_attributes}
use disks_rs.Planner.Steps.{add, here, next}
use disks_rs.Writer.{Store}
use disks_rs.Writer.Changes.{Machine, open_table, apply_each, simulate, write, zero_regions}
use disks_rs.Writer.Answers.{IsAnswering}
use disks_rs.Writer.Progress.{Ends, HasZeroPrefix}
use disks_rs.Writer.Reached.{write-Reach}
use disks_rs.Writer.Simulation.{IsReadOnly}
use disks_rs.Writer.Predicted.{IsConsistent, simulate-predicts}
use disks_rs.Writer.TableExamples.{look, look-without, Blocks, without, known, entries}

-- A machine that is the contents of its device; writing a table sets the first byte.
abbrev plain : Machine Store Blocks ℕ
plain = record {
  open_file = λ w s. done tt s;
  close_file = λ s. s;
  flush = λ s. done tt s;
  store = λ s. s;
  put = λ t s. t;
  create_from_device = λ w s. done [] s;
  open_from_device = λ w s. done ((1, (34, 100)) ∷ []) s;
  write_inplace = λ t s. done t s;
  write = λ t s. done tt (record s { byte = λ i. 2 });
  sync_all = λ s. done tt s;
  overwrite_lba0 = λ n s. done tt s;
  add_partition_at = λ name id start size type t. ok ((id, (start, size)) ∷ t);
  remove_partition = without;
  basic = 0;
  sysfs_disk = λ s. some known;
  gpt_entries = λ s. ok entries;
  ioctl = λ x s. (true, s);
}

plain-IsAnswering : IsAnswering plain
plain-IsAnswering = record {
  opened = λ b w. (w, refl, refl);
  closed_same = λ w. refl;
  flushed = λ w. (w, refl, refl);
  stored = λ s w. refl;
  created = λ b w. ([], w, refl, refl);
  table_opened = λ b w. ((1, (34, 100)) ∷ [], w, refl, refl);
  placed = λ t w. (t, w, refl, refl);
  written = λ t w. (record w { byte = λ i. 2 }, refl, refl);
  synced = λ w. (w, refl, refl);
  overwritten = λ n w. (w, refl, refl);
  disk_read = λ w. (known, refl);
  table_read = λ w. (entries, refl);
  answered = λ x w. refl;
  called = λ x w. refl;
}

abbrev contents : Store
contents = record { size = 4194304; byte = λ i. 1; position = 0 }

-- A planner without changes, and the one that an addition makes of it.
abbrev before : Planner (PartitionAttributes ℕ ℕ)
before = record {
  usable_start = 0;
  usable_end = 4194304;
  changes = [];
  original_regions = [];
  original_partition_ids = [];
  next_partition_id = 1;
  wipe_disk = true;
}

abbrev after : Planner (PartitionAttributes ℕ ℕ)
after = record before {
  changes = Change.add_partition 1048576 2097152 1 none ∷ [];
  next_partition_id = 2;
}

addition : plan_add_partition_with_attributes 1048576 2097152 none before ≡ done tt after
unfolding plan_add_partition_with_attributes disks_rs.Sizing.is_aligned disks_rs.Sizing.align_up
    disks_rs.Sizing.align_down disks_rs.Planner.place layout_of disks_rs.Base.add32
addition = refl

write-Reach_example :
    (t : Blocks) × (w1 w2 : Store) × (open_table plain true (mock_device (new_mock 4194304)) true w1
      ≡ done t w2)
    × Ends plain plain-IsAnswering
        (mock_device (new_mock 4194304))
        after
        contents
        t
        (apply_each plain after.changes t)
unfolding layout_of
write-Reach_example =
    write-Reach plain plain-IsAnswering (mock_device (new_mock 4194304)) before after
      (record { start = 1048576; end = 2097152; partition_id = some 1; attributes = none } ∷ [])
      contents (omega arith) (omega arith) (omega arith) refl
      (next here (add 1048576 2097152 none addition))
      (record { rising = (tt, tt); below = (omega arith, tt); originals = tt }) refl

plain-IsReadOnly : IsReadOnly plain
plain-IsReadOnly = record {
  open_keeps = λ v w h. h;
  close_keeps = λ w. refl;
  create_keeps = λ v w h. h;
  table_keeps = λ v w h. h;
}

-- The frame of every table is that of a disk of 4 MiB.
abbrev frame : Blocks → ℕ × ℕ × ℕ
frame t = (34, 8158, 128)

plain-IsConsistent : IsConsistent plain look frame
plain-IsConsistent = record {
  laws = record {
    look-add = λ name id start count type t u h j. ground arith;
    look-remove = look-without;
  };
  add_alike = λ name id start count type t u t' s h. ((id, (start, count)) ∷ u, refl, refl);
  remove_alike = λ id t u s. refl;
  created_empty = λ b w v t h j. ground arith;
  created_frame = λ b c v w v' w' t u s e f. refl;
  placed_alike = λ t u w v h. ((λ j. ground arith), refl);
  opened_alike = λ b c v w v' w' t u s e f. ((λ j. ground arith), refl);
}

-- A second partition beside the one that the table has.
abbrev second : Planner (PartitionAttributes ℕ ℕ)
second = record before {
  changes = Change.add_partition 1048576 2097152 2 none ∷ [];
  next_partition_id = 3;
  wipe_disk = false;
}

simulated : simulate plain (mock_device (new_mock 4194304)) second contents ≡ done tt contents
unfolding simulate layout_of
simulated = refl

simulate-predicts_example :
    (v : Store) × (write plain (mock_device (new_mock 4194304)) second contents ≡ done tt v)
    × All (HasZeroPrefix v) (zero_regions second.changes)
simulate-predicts_example =
    simulate-predicts plain plain-IsAnswering look frame (mock_device (new_mock 4194304)) second
      contents contents plain-IsReadOnly plain-IsConsistent (omega arith) (omega arith)
      ((omega arith, omega arith), tt) simulated
