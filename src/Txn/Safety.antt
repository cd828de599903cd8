-- ===== src/Txn/Safety.antt =====
-- What the disk must look like, at any moment, for `RecoverOnBoot` to bring back one version whole.
use radio_gaga.Common.{◌≡◌, ◌⊎◌, Bool, true, false, List, ℕ, Option, none}
use radio_gaga.Txn.Disk.{
  Disk, Slots, absent, holds, Pending, State, Part, cfg_part, bin_part, File, live, staging, lkg,
  read, write, contents,
}
use radio_gaga.Txn.Calls.{present}
use radio_gaga.Txn.Manager.{swaps_config, swaps_binary}

-- The contents of the two live files.
pub record Version : Type 0 where
  pub cfg : Option (List ℕ)
  pub bin : Option (List ℕ)

abbrev pub Shows : Version → Disk → Type 0
Shows v d = (contents d.cfg.live ≡ v.cfg) × (contents d.bin.live ≡ v.bin)

-- The snapshot of a part stands: there was no live file, or the `.lkg` file holds its contents.
abbrev pub Snapped : Bool → Option (List ℕ) → Slots → Type 0
Snapped fresh old s =
    ((fresh ≡ true) × (old ≡ none))
    ⊎ ((fresh ≡ false) × (present s.lkg ≡ true) × (contents s.lkg ≡ old))

-- A part can be rolled back: its snapshot stands, or it has none and the live file is the old one.
abbrev pub Restorable : Bool → Bool → Option (List ℕ) → Slots → Type 0
Restorable swapped fresh old s =
    ((swapped ≡ false) × (contents s.live ≡ old))
    ⊎ ((swapped ≡ true) × Snapped fresh old s)
    ⊎ ((swapped ≡ true) × (fresh ≡ false) × (s.lkg ≡ none) × (contents s.live ≡ old))

-- The marker of a transaction in flight, over a disk that can be rolled back to `o`.
pub record Undoes (o : Version) (d : Disk) (p : Pending) : Type 0 where
  pub marked : d.marker ≡ holds p
  pub in_flight : p.state ≡ State.inflight
  pub replaces : p.config_install_only ≡ false
  pub cfg_back : Restorable (swaps_config p.kind) p.no_prior_live_config o.cfg d.cfg
  pub bin_back : Restorable (swaps_binary p.kind) p.no_prior_live_binary o.bin d.bin

abbrev pub OldSafe : Version → Disk → Type 0
OldSafe o d = ((d.marker ≡ absent) × Shows o d) ⊎ ((p : Pending) × Undoes o d p)

abbrev pub NewSafe : Version → Disk → Type 0
NewSafe n d =
    ((d.marker ≡ absent) × Shows n d)
    ⊎ ((p : Pending) × (d.marker ≡ holds p) × (p.state ≡ State.committed) × Shows n d)

abbrev pub Safe : Version → Version → Disk → Type 0
Safe o n d = OldSafe o d ⊎ NewSafe n d

-- Before the marker is written.
abbrev pub Pre : Version → Disk → Type 0
Pre o d = (d.marker ≡ absent) × Shows o d

pub Pre-write_staging :
    (o : Version) (p : Part) (d : Disk) (f : Option File) → Pre o d → Pre o (write d (staging p) f)
Pre-write_staging o cfg_part d f h = h
Pre-write_staging o bin_part d f h = h

pub Pre-write_lkg :
    (o : Version) (p : Part) (d : Disk) (f : Option File) → Pre o d → Pre o (write d (lkg p) f)
Pre-write_lkg o cfg_part d f h = h
Pre-write_lkg o bin_part d f h = h

abbrev pub of_part : Version → Part → Option (List ℕ)
of_part v cfg_part = v.cfg
of_part v bin_part = v.bin

pub Pre-live :
    (o : Version) (p : Part) (d : Disk) → Pre o d → contents (read d (live p)) ≡ of_part o p
Pre-live o cfg_part d h = h.1.0
Pre-live o bin_part d h = h.1.1
