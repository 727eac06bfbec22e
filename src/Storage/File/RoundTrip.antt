-- ===== src/Storage/File/RoundTrip.antt =====
-- A Load after a Save of the snapshot file (internal/storage/file.go).
use rtmetrics.Base.{
  ℕ, String, ◌≡◌, ◌≢◌, refl, ap, true, some, List, [], ◌∷◌, map, arith, eq_iff, Bytes,
}
use rtmetrics.Base.GoMap.{GoMap, IsRange, empty, get, put, fill, get-fill_range}
use rtmetrics.Model.{Float64, new_counter, new_gauge}
use rtmetrics.Repository.{ok, is_ok}
use rtmetrics.Storage.File.{
  Codec, IsFaithful, Calls, Disk, snapshot_items, save, load_item, load_items, load_content, load,
}
use rtmetrics.Storage.File.Outcome.{save-Outcome}

load_items-snapshot_items :
    (cs : List (String × ℕ)) (gs : List (String × Float64)) (c : GoMap ℕ) (g : GoMap Float64)
    → load_items (map some (snapshot_items cs gs)) (c, g) ≡ (fill cs c, fill gs g)
unfolding snapshot_items load_items load_item new_counter new_gauge fill
load_items-snapshot_items [] [] c g = refl
load_items-snapshot_items [] ((id, v) ∷ gs) c g = load_items-snapshot_items [] gs c (put g id v)
load_items-snapshot_items ((id, v) ∷ cs) gs c g = load_items-snapshot_items cs gs (put c id v) g

load_content-snapshot :
    (codec : Codec) (cs : List (String × ℕ)) (gs : List (String × Float64)) (b : Bytes)
    → IsFaithful codec
    → codec.encode (snapshot_items cs gs) ≡ some b
    → load_content codec (some b) ≡ ok (fill cs empty, fill gs empty)
unfolding load_content
load_content-snapshot codec cs gs b faithful e =
    rw (faithful (snapshot_items cs gs) b e, load_content)
      (ap ok (load_items-snapshot_items cs gs empty empty))

module _ (codec : Codec) (temp_name : String → String) (path : String) (faithful : IsFaithful codec)
    (named : path ≢ "") (apart : temp_name path ≢ path) (cs : List (String × ℕ))
    (gs : List (String × Float64)) (disk : Disk) where
  written :
      (calls : Calls)
      → is_ok (save codec temp_name calls path cs gs disk).0 ≡ true
      → (b : Bytes) × (codec.encode (snapshot_items cs gs) ≡ some b)
        × (get (save codec temp_name calls path cs gs disk).1 path ≡ some b)
  written calls done =
      ground (arith, save-Outcome codec temp_name calls path cs gs disk named apart)

  -- A Save that returns nil has written a file that Load reads back: whatever the order in which
  -- Save met the entries of the two maps, every counter and every gauge has its value again, and
  -- no other name has one. (The path is not empty, the temporary file is another one, the codec
  -- decodes what it encodes, and the file can be read.)
  pub load-save :
      (calls : Calls) (counters : GoMap ℕ) (gauges : GoMap Float64)
      → IsRange cs counters
      → IsRange gs gauges
      → is_ok (save codec temp_name calls path cs gs disk).0 ≡ true
      → (c : GoMap ℕ) × (g : GoMap Float64) × (load codec true path
            (save codec temp_name calls path cs gs disk).1
          ≡ ok (c, g))
        × ((k : String) → get c k ≡ get counters k)
        × ((k : String) → get g k ≡ get gauges k)
  unfolding load
  load-save calls counters gauges rc rg done =
      let (b, encoded, there) = written calls done in
      (
        fill cs empty,
        fill gs empty,
        ground (arith, eq_iff path "", there, load_content-snapshot codec cs gs b faithful encoded),
        λ k. get-fill_range cs counters k rc,
        λ k. get-fill_range gs gauges k rg,
      )
