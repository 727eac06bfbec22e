-- ===== src/Storage/File.antt =====
-- internal/storage/file.go: the snapshot file. System calls succeed or fail as `Calls` says; the
-- JSON codec and the name of the temporary file come from outside.
pub mod RoundTrip
pub mod Outcome
use rtmetrics.Base.{
  ℕ, String, ◌≡◌, ◌≢◌, Bool, true, false, Option, none, some, List, [], ◌∷◌, ◌++◌, map,
  if◌then◌else◌, ◌==◌, Bytes,
}
use rtmetrics.Base.GoMap.{GoMap, empty, get, put, delete}
use rtmetrics.Model.{Float64, Metrics, counter, gauge, new_counter, new_gauge}
use rtmetrics.Repository.{Result, ok, err, other}

-- encoding/json for the snapshot: a list of pointers to metrics. It refuses what JSON cannot
-- hold, and a decoded pointer may be nil.
pub record Codec : Type 0 where
  pub encode : List Metrics → Option Bytes
  pub decode : Bytes → Option (List (Option Metrics))

-- What is encoded decodes to itself.
abbrev pub IsFaithful : Codec → Type 0
IsFaithful c =
    (ms : List Metrics) (b : Bytes) → c.encode ms ≡ some b → c.decode b ≡ some (map some ms)

-- Which system calls of one Save succeed.
pub record Calls : Type 0 where
  pub mkdir : Bool
  pub create : Bool
  pub write : Bool
  pub sync : Bool
  pub close : Bool
  pub rename : Bool
  pub remove : Bool
  pub rename_again : Bool

abbrev pub all_succeed : Calls
all_succeed = record {
  mkdir = true;
  create = true;
  write = true;
  sync = true;
  close = true;
  rename = true;
  remove = true;
  rename_again = true;
}

abbrev pub Disk : Type 0
Disk = GoMap Bytes

-- items, in the order in which the loops meet the entries of the two maps
unfoldable pub snapshot_items : List (String × ℕ) → List (String × Float64) → List Metrics
snapshot_items [] [] = []
snapshot_items [] ((id, v) ∷ gs) = new_gauge id v ∷ snapshot_items [] gs
snapshot_items ((id, v) ∷ cs) gs = new_counter id v ∷ snapshot_items cs gs

-- rename(tmp, path), then the deferred remove of tmp, which is gone
abbrev moved : String → String → Bytes → Disk → Disk
moved tmp path b disk = delete (put disk path b) tmp

-- The end of Save, when `tmp` holds `b`.
unfoldable pub replace_file : Calls → String → String → Bytes → Disk → Result (Unit {0}) × Disk
replace_file calls tmp path b disk =
    if calls.rename
    then (ok tt, moved tmp path b disk)
    else let old = if calls.remove then delete disk path else disk in
      if calls.rename_again
      then (ok tt, moved tmp path b old)
      else (err (other "rename"), delete old tmp)

-- Encode, Sync and Close of the temporary file; on an error the deferred remove drops it.
unfoldable pub write_temp : Calls → String → String → Option Bytes → Disk → Result (Unit {0}) × Disk
unfolding replace_file
write_temp calls tmp path none disk = (err (other "json"), delete disk tmp)
write_temp calls tmp path (some b) disk =
    if calls.write
    then if calls.sync
      then if calls.close
        then replace_file calls tmp path b (put disk tmp b)
        else (err (other "close"), delete (put disk tmp b) tmp)
      else (err (other "sync"), delete (put disk tmp b) tmp)
    else (err (other "write"), delete disk tmp)

module _ (codec : Codec) (temp_name : String → String) where
  unfoldable pub save :
      Calls → String → List (String × ℕ) → List (String × Float64) → Disk → Result (Unit {0}) × Disk
  unfolding write_temp
  save calls path counters gauges disk =
      if path == ""
      then (ok tt, disk)
      else if calls.mkdir
      then if calls.create
        then write_temp calls (temp_name path) path (codec.encode (snapshot_items counters gauges))
            (put disk (temp_name path) [])
        else (err (other "create"), disk)
      else (err (other "mkdir"), disk)

-- One round of the loop of Load: a later item replaces an earlier one.
unfoldable pub load_item : Option Metrics → GoMap ℕ × GoMap Float64 → GoMap ℕ × GoMap Float64
load_item none (counters, gauges) = (counters, gauges)
load_item (some m) (counters, gauges) =
    if m.mtype == counter
    then elim m.delta [ none ↦ (counters, gauges) | some delta ↦ (put counters m.id delta, gauges) ]
    else if m.mtype == gauge
    then elim m.value [ none ↦ (counters, gauges) | some value ↦ (counters, put gauges m.id value) ]
    else (counters, gauges)

unfoldable pub load_items :
    List (Option Metrics) → GoMap ℕ × GoMap Float64 → GoMap ℕ × GoMap Float64
load_items [] maps = maps
load_items (m ∷ ms) maps = load_items ms (load_item m maps)

-- What os.ReadFile returned: the file, or nothing where there is none.
unfoldable pub load_content : Codec → Option Bytes → Result (GoMap ℕ × GoMap Float64)
load_content codec none = ok (empty, empty)
load_content codec (some b) = elim (codec.decode b) [
  | none ↦ err (other "json")
  | some items ↦ ok (load_items items (empty, empty))
]

-- `readable` is false where reading fails with another error than "not exist".
unfoldable pub load : Codec → Bool → String → Disk → Result (GoMap ℕ × GoMap Float64)
unfolding load_content
load codec readable path disk =
    if path == ""
    then ok (empty, empty)
    else if readable
    then load_content codec (get disk path)
    else err (other "read")
