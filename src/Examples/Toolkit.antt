-- ===== src/Examples/Toolkit.antt =====
-- Concrete instances of what the program gets from outside: a codec for the snapshots of one counter
-- and one gauge, formats, map orders, a platform and a configuration.
use mathlib.Core.Option.{Option, none, some}
use rtmetrics.Base.{
  ℕ, zero, suc, String, ◌≡◌, ◌≢◌, refl, sym, true, List, [], ◌∷◌, arith, eq_iff, Bytes, ◌==◌, ◌&&◌,
  if◌then◌else◌, codes,
}
use rtmetrics.Base.Int64.{pos}
use rtmetrics.Base.GoMap.{Iteration, range, range-IsRange}
use rtmetrics.Model.{Float64, Metrics, counter, gauge, new_counter, new_gauge}
use rtmetrics.Base.Int64.{parse_int}
use rtmetrics.Base.Decimal.{format_int}
use rtmetrics.Config.Server.{ServerConfig, defaults}
use rtmetrics.Server.{Platform}
use rtmetrics.Storage.{MemStorage, new}
use rtmetrics.Audit.{new_subject}
use rtmetrics.Http.{Request}
use rtmetrics.Api.{World, Formats}
use rtmetrics.Storage.File.{Codec, IsFaithful}

-- A counter named "hits" is 0 and its value; a gauge named "temp" is 1 and its bits; the codec
-- refuses all else.
abbrev code_counter : Option ℕ → Option Float64 → Option (ℕ × ℕ)
code_counter (some d) none = some (0, d)
code_counter (some d) (some v) = none
code_counter none v = none

abbrev code_gauge : Option ℕ → Option Float64 → Option (ℕ × ℕ)
code_gauge none (some v) = some (1, v.bits)
code_gauge none none = none
code_gauge (some d) v = none

abbrev code_metric : Metrics → Option (ℕ × ℕ)
code_metric m =
    if m.id == "hits" && (m.mtype == counter && m.hash == "")
    then code_counter m.delta m.value
    else if m.id == "temp" && (m.mtype == gauge && m.hash == "")
    then code_gauge m.delta m.value
    else none

abbrev decode_metric : ℕ × ℕ → Metrics
decode_metric (zero, d) = record {
  id = "hits";
  mtype = counter;
  delta = some d;
  value = none;
  hash = "";
}
decode_metric (suc n, b) = record {
  id = "temp";
  mtype = gauge;
  delta = none;
  value = some (record { bits = b });
  hash = "";
}

counter_back :
    (d : Option ℕ) (v : Option Float64) (p : ℕ × ℕ)
    → code_counter d v ≡ some p
    → decode_metric p ≡ record { id = "hits"; mtype = counter; delta = d; value = v; hash = "" }
counter_back none none p h = cc
counter_back none (some v) p h = cc
counter_back (some d) (some v) p h = cc
counter_back (some d) none p h = let e : (0, d) ≡ p = cc in rw (sym e) refl

gauge_back :
    (d : Option ℕ) (v : Option Float64) (p : ℕ × ℕ)
    → code_gauge d v ≡ some p
    → decode_metric p ≡ record { id = "temp"; mtype = gauge; delta = d; value = v; hash = "" }
gauge_back none none p h = cc
gauge_back (some d) none p h = cc
gauge_back (some d) (some v) p h = cc
gauge_back none (some v) p h = let e : (1, v.bits) ≡ p = cc in rw (sym e) refl

decode-code :
    (id mtype hash : String) (d : Option ℕ) (v : Option Float64) (p : ℕ × ℕ)
    → code_metric (record { id = id; mtype = mtype; delta = d; value = v; hash = hash }) ≡ some p
    → decode_metric p ≡ record { id = id; mtype = mtype; delta = d; value = v; hash = hash }
decode-code id mtype hash d v p h = ground (
  arith,
  eq_iff id "hits",
  eq_iff id "temp",
  eq_iff mtype counter,
  eq_iff mtype gauge,
  eq_iff hash "",
  counter_back d v p,
  gauge_back d v p,
)

abbrev encode_next : Option (ℕ × ℕ) → Option Bytes → Option Bytes
encode_next none rest = none
encode_next (some p) none = none
encode_next (some (c, n)) (some b) = some (c ∷ n ∷ b)

abbrev encode_all : List Metrics → Option Bytes
encode_all [] = some []
encode_all (m ∷ ms) = encode_next (code_metric m) (encode_all ms)

abbrev decode_next : ℕ × ℕ → Option (List (Option Metrics)) → Option (List (Option Metrics))
decode_next p none = none
decode_next p (some ms) = some (some (decode_metric p) ∷ ms)

abbrev decode_all : Bytes → Option (List (Option Metrics))
decode_all [] = some []
decode_all (c ∷ []) = none
decode_all (c ∷ n ∷ b) = decode_next (c, n) (decode_all b)

abbrev pub toy_codec : Codec
toy_codec = record { encode = encode_all; decode = decode_all }

encode_next-some :
    (o : Option (ℕ × ℕ)) (rest : Option Bytes) (b : Bytes)
    → encode_next o rest ≡ some b
    → (c : ℕ) × (n : ℕ) × (b' : Bytes) × (o ≡ some (c, n)) × (rest ≡ some b') × (b ≡ c ∷ n ∷ b')
encode_next-some none rest b h = cc
encode_next-some (some p) none b h = cc
encode_next-some (some (c, n)) (some b') b h = (c, n, b', refl, refl, cc)

pub toy_codec-IsFaithful : IsFaithful toy_codec
toy_codec-IsFaithful [] b h = let e : [] ≡ b = cc in rw (sym e) refl
toy_codec-IsFaithful (m ∷ ms) b h =
    let (c, n, b', first, rest, all) = encode_next-some (code_metric m) (encode_all ms) b h in
    rw
      (
        all,
        toy_codec-IsFaithful ms b' rest,
        decode-code m.id m.mtype m.hash m.delta m.value (c, n) first,
      )
      refl

abbrev pub ranges {ℓ} : {V : Type ℓ} → Iteration V
ranges = record { order = range; is_range = range-IsRange }

abbrev pub snapshot_path : String
snapshot_path = "metrics.json"

abbrev pub temp_path : String
temp_path = "metrics-1.tmp"

abbrev pub toy_platform : Platform
toy_platform = record {
  codec = toy_codec;
  temp_name = λ path. temp_path;
  ints = ranges;
  floats = ranges;
}

-- A snapshot on every write, restored at the start.
abbrev pub sync_config : ServerConfig
sync_config = record defaults {
  store_interval = pos 0;
  file_storage_path = snapshot_path;
  restore = true;
}

-- A snapshot every five minutes, restored at the start.
abbrev pub periodic_config : ServerConfig
periodic_config = record sync_config { store_interval = pos 300 }

pub path_named : snapshot_path ≢ ""
path_named = ground (arith, eq_iff snapshot_path "")

pub path_apart : temp_path ≢ snapshot_path
path_apart = ground (arith, eq_iff temp_path snapshot_path)

-- A toy float syntax: the bits in decimal.
abbrev pub parse_bits : Bytes → Option Float64
parse_bits b = elim (parse_int b) [ none ↦ none | some n ↦ some (record { bits = n }) ]

abbrev pub two_metrics : List Metrics
two_metrics = new_counter "hits" 2 ∷ new_gauge "temp" (record { bits = 7 }) ∷ []

abbrev pub toy_formats : Formats
toy_formats = record {
  decode_metrics = λ b. some (new_counter "hits" 2);
  encode_metrics = λ m. some (codes m.id);
  decode_batch = λ b. some two_metrics;
  parse_float = parse_bits;
  format_float = λ v. format_int v.bits;
  split_host_port = λ s. some s;
  now = 0;
}

-- The request for a metric, or with JSON.
abbrev pub request_of : String → String → String → Request
request_of mtype name value = record {
  method = "POST";
  path = "/";
  header = λ k. if k == "Content-Type" then "application/json" else "";
  param = λ k. if k == "mtype" then mtype else if k == "name" then name else value;
  body = [];
  body_ok = true;
  remote_addr = "10.0.0.1:5000";
}

abbrev pub audited_world : World MemStorage
audited_world = record { store = new; auditor = some new_subject }
