-- ===== src/Storage/File/Outcome.antt =====
-- What a Save of the snapshot file (internal/storage/file.go) leaves on the disk, whatever system
-- calls fail.
use rtmetrics.Base.{
  ℕ, String, ◌≡◌, ◌≢◌, true, false, Option, none, some, List, [], arith, eq_refl, eq_iff, Bytes,
  ◌⊎◌,
}
use rtmetrics.Base.GoMap.{get, put, delete, get-put, get-delete}
use rtmetrics.Model.{Float64}
use rtmetrics.Repository.{Result, is_ok}
use rtmetrics.Storage.File.{Codec, Calls, Disk, snapshot_items, replace_file, write_temp, save}

-- The new snapshot is in place; or Save failed and the old file is as it was; or Save failed, both
-- renames did, and the old file has been removed.
abbrev pub Outcome : Calls → String → Option Bytes → Disk → Result (Unit {0}) × Disk → Type 0
Outcome calls path encoded before r =
    ((is_ok r.0 ≡ true) × (encoded ≢ none) × (get r.1 path ≡ encoded))
    ⊎ (((is_ok r.0 ≡ false) × (get r.1 path ≡ get before path))
        ⊎ ((is_ok r.0 ≡ false)
            × (get r.1 path ≡ none)
            × (calls.rename ≡ false)
            × (calls.remove ≡ true)
            × (calls.rename_again ≡ false)))

replace_file-Outcome :
    (calls : Calls) (tmp path : String) (b : Bytes) (before disk : Disk)
    → tmp ≢ path
    → get disk path ≡ get before path
    → Outcome calls path (some b) before (replace_file calls tmp path b disk)
unfolding replace_file
replace_file-Outcome calls tmp path b before disk ne same = ground (
  arith,
  eq_iff tmp path,
  eq_refl path,
  get-put disk path path b,
  get-delete disk path path,
  get-delete (put disk path b) tmp path,
  get-delete disk tmp path,
  get-put (delete disk path) path path b,
  get-delete (put (delete disk path) path b) tmp path,
  get-delete (delete disk path) tmp path,
)

write_temp-Outcome :
    (calls : Calls) (tmp path : String) (encoded : Option Bytes) (before disk : Disk)
    → tmp ≢ path
    → get disk path ≡ get before path
    → Outcome calls path encoded before (write_temp calls tmp path encoded disk)
unfolding write_temp
write_temp-Outcome calls tmp path none before disk ne same =
    ground (arith, eq_iff tmp path, get-delete disk tmp path)
write_temp-Outcome calls tmp path (some b) before disk ne same = ground (
  arith,
  eq_iff tmp path,
  get-delete disk tmp path,
  get-put disk tmp path b,
  get-delete (put disk tmp b) tmp path,
  replace_file-Outcome calls tmp path b before (put disk tmp b),
)

module _ (codec : Codec) (temp_name : String → String) (calls : Calls) (path : String)
    (cs : List (String × ℕ)) (gs : List (String × Float64)) (disk : Disk) where
  -- Whatever system calls of a Save fail, it ends in one of three ways: it returns nil and the file
  -- holds exactly the encoded items; or it returns an error and the file is as it was; or it returns
  -- an error and the old file is gone, which happens only if the rename fails, the remove of the old
  -- file succeeds and the second rename fails too. (The path is not empty and the temporary file is
  -- another one.)
  pub save-Outcome :
      path ≢ ""
      → temp_name path ≢ path
      → Outcome calls path
          (codec.encode (snapshot_items cs gs))
          disk
          (save codec temp_name calls path cs gs disk)
  unfolding save
  save-Outcome named ne = ground (
    arith,
    eq_iff path "",
    eq_iff (temp_name path) path,
    get-put disk (temp_name path) path [],
    write_temp-Outcome calls (temp_name path) path (codec.encode (snapshot_items cs gs)) disk
        (put disk (temp_name path) []),
  )
