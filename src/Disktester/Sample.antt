-- ===== src/Disktester/Sample.antt =====
-- A concrete host for the program of crates/disktester/src/main.rs: a file of strategies and a
-- machine whose state is its open files and the contents of the device.
use disks_rs.Base.{
  ℕ, ◌+◌, String, true, false, Option, none, some, List, [], ◌∷◌, ok, done, ◌==◌, length, drop,
  if◌then◌else◌,
}
use disks_rs.Base.Text.{str_eq}
use disks_rs.Base.Parse.{is_ascii_digit}
use disks_rs.Base.Int.{pos}
use disks_rs.Disks.{FilePath, normal}
use disks_rs.Provisioning.Document.{Node, definition, Item, Entry, number, key, word, documents}
use disks_rs.Loopback.{System}
use disks_rs.Loopback.Descriptors.{without}
use disks_rs.Writer.{Store}
use disks_rs.Writer.Changes.{Machine}
use disks_rs.Writer.TableExamples.{Blocks, known, entries}
use disks_rs.Writer.TableExamples
use disks_rs.Provisioning.Tests.{types}
use disks_rs.Disktester.{Host}

-- create-partition disk="root" id=id { constraints { exactly (mib)n } }
abbrev pub exact_creation : String → ℕ → Item
exact_creation id n = record {
  name = "create-partition";
  entries = key "disk" "root" ∷ key "id" id ∷ [];
  groups =
      record {
        name = "constraints";
        entries = [];
        leaves = record { name = "exactly"; value = number (some "mib") (pos n) } ∷ [];
      }
      ∷ [];
}

-- One strategy: find-disk "root", create-partition-table type="gpt" disk="root", and two
-- partitions of one MiB.
abbrev pub document : List Node
document =
    definition (record {
      name = "strategy";
      entries = key "name" "whole" ∷ key "summary" "Wipe" ∷ [];
      items =
          record { name = "find-disk"; entries = word "root" ∷ []; groups = [] }
          ∷ record {
            name = "create-partition-table";
            entries = key "type" "gpt" ∷ key "disk" "root" ∷ [];
            groups = [];
          }
          ∷ exact_creation "boot" 1
          ∷ exact_creation "home" 1
          ∷ [];
    })
    ∷ []

pub record World : Type 0 where
  pub opened : List ℕ
  pub device : Store

-- A new file gets the next number, up to 9; `LOOP_CTL_GET_FREE` answers 7.
abbrev pub system : System World
system = record {
  open_file = λ mode path w.
      if length w.opened == 10
      then (none, w)
      else (some (length w.opened + 3), record w { opened = (length w.opened + 3) ∷ w.opened });
  ioctl = λ fd c w. (some 7, w);
  set_len = λ fd size w. (true, w);
  close = λ fd w. record w { opened = without fd w.opened };
}

-- Opening a file adds its number, the drop of the last one takes it away; writing a table sets all
-- bytes.
abbrev pub machine : Machine World Blocks ℕ
machine = record {
  open_file = λ b w. done tt (record w { opened = (length w.opened + 3) ∷ w.opened });
  close_file = λ w. record w { opened = drop 1 w.opened };
  flush = λ w. done tt w;
  store = λ w. w.device;
  put = λ s w. record w { device = s };
  create_from_device = λ b w. done [] w;
  open_from_device = λ b w. done ((1, (34, 100)) ∷ []) w;
  write_inplace = λ t w. done t w;
  write = λ t w. done tt (record w { device = record w.device { byte = λ i. 2 } });
  sync_all = λ w. done tt w;
  overwrite_lba0 = λ n w. done tt w;
  add_partition_at = λ name id start size type t. ok ((id, (start, size)) ∷ t);
  remove_partition = TableExamples.without;
  basic = 0;
  sysfs_disk = λ w. some known;
  gpt_entries = λ w. ok entries;
  ioctl = λ x w. (true, w);
}

-- The attributes of /dev/loop7 by the last component of their path.
abbrev pub attribute : String → FilePath → Option String
attribute sectors [] = none
attribute sectors (normal n ∷ []) =
    if str_eq n "size"
    then some sectors
    else if str_eq n "backing_file"
    then some "/image\n"
    else none
attribute sectors (_ ∷ []) = none
attribute sectors (_ ∷ c ∷ path) = attribute sectors (c ∷ path)

-- A host by its file of strategies and the number of the loop device's sectors.
abbrev pub host_of : List Node → String → Host World Node Entry Unit Blocks ℕ ℕ
host_of nodes sectors = record {
  loops = system;
  read_to_string = λ path w. ok "";
  kdl = documents;
  parse_v2 = λ s. ok nodes;
  files = λ w. record { read_dir = λ p. some []; read_to_string = attribute sectors };
  classes = record {
    is_alphabetic = λ c. false;
    is_numeric = is_ascii_digit;
    is_match = λ pattern s. false;
  };
  machine = λ path. machine;
  types = types;
  output = λ c w. (some (record { success = true; stdout = some ""; stderr = some "" }), w);
}

abbrev pub host : Host World Node Entry Unit Blocks ℕ ℕ
host = host_of document "8192\n"

abbrev pub start : World
start = record { opened = []; device = record { size = 4194304; byte = λ i. 1; position = 0 } }
