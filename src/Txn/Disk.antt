-- ===== src/Txn/Disk.antt =====
-- internal/txn/pending.go, and the part of the file system that internal/txn/manager.go works on:
-- the live file, the `.staging` file and the `.lkg` file of the configuration and of the binary, and
-- the pending marker. The seven names are taken to be different files.
use radio_gaga.Common.{ℕ, String, Option, none, some, List, Bool}

-- `Kind`, a Go string type; `other` is any text but the three constants.
pub data Kind : Type 0 where
  config binary both : Kind
  other : String → Kind

-- `State`, a Go string type; `unknown` is any text but the two constants.
pub data State : Type 0 where
  inflight committed : State
  unknown : String → State

pub record Pending : Type 0 where
  pub txn_id : String
  pub kind : Kind
  pub state : State
  pub started_at_unix : ℕ
  pub deadline_unix : ℕ
  pub config_install_only : Bool
  pub no_prior_live_config : Bool
  pub no_prior_live_binary : Bool

-- The bytes for the swap; an empty list is a missing field.
pub record Candidate : Type 0 where
  pub config : List ℕ
  pub binary : List ℕ

-- Two names are hard links of one file when their inodes agree.
pub record File : Type 0 where
  pub inode : ℕ
  pub mode : ℕ
  pub bytes : List ℕ

pub record Slots : Type 0 where
  pub live : Option File
  pub staging : Option File
  pub lkg : Option File

-- The marker file: not there, holding a marker, or not to be parsed.
pub data Marker : Type 0 where
  absent garbled : Marker
  holds : Pending → Marker

pub record Disk : Type 0 where
  pub cfg : Slots
  pub bin : Slots
  pub marker : Marker

-- Which of the two files is swapped.
pub data Part : Type 0 where
  cfg_part bin_part : Part

-- A name of a part's directory: the live path, and the path with the suffix `.staging` or `.lkg`.
pub data FilePath : Type 0 where
  live staging lkg : Part → FilePath

abbrev pub slots : Disk → Part → Slots
slots d cfg_part = d.cfg
slots d bin_part = d.bin

abbrev pub put_slots : Disk → Part → Slots → Disk
put_slots d cfg_part s = record d { cfg = s }
put_slots d bin_part s = record d { bin = s }

abbrev pub read : Disk → FilePath → Option File
read d (live p) = (slots d p).live
read d (staging p) = (slots d p).staging
read d (lkg p) = (slots d p).lkg

abbrev pub write : Disk → FilePath → Option File → Disk
write d (live p) f = put_slots d p (record (slots d p) { live = f })
write d (staging p) f = put_slots d p (record (slots d p) { staging = f })
write d (lkg p) f = put_slots d p (record (slots d p) { lkg = f })

-- What a reader of the file sees.
abbrev pub contents : Option File → Option (List ℕ)
contents none = none
contents (some f) = some f.bytes
