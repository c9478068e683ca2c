-- ===== src/Modelled.antt =====
-- src/storage/model.rs: the costs that a declared model gives a cell, and the rows of a document.
pub mod Sources
use libviprs_bench.Base.{
  ℕ, String, Bool, ◌&&◌, List, [], ◌∷◌, ◌++◌, map, Option, none, some, if◌then◌else◌, str_eq, ◌==◌,
  any,
}
use libviprs_bench.Json.{Map, object, entry, empty, string}
use libviprs_bench.Statistics.{Arith}
use libviprs_bench.StorageDocument.Cell.{DocumentCell}
use libviprs_bench.StorageDocument.Whole.{ModelledEntry, Document}
use libviprs_bench.StorageDocument.Wire.{float_value}

pub record Parameter : Type 0 where
  pub name : String
  pub value : ℕ
  pub unit : String

pub record RemoteModel : Type 0 where
  pub rtt_ms : ℕ
  pub bandwidth_bytes_per_s : ℕ

pub record SyncModel : Type 0 where
  pub per_file_ms : ℕ

pub record Modelled : Type 0 where
  pub name : String
  pub value : ℕ
  pub unit : String
  pub parameters : List Parameter

-- 30.0
abbrev declared_rtt_ms : ℕ
declared_rtt_ms = 0x403e000000000000

-- 50.0 * 1024.0 * 1024.0
abbrev declared_bandwidth_bytes_per_s : ℕ
declared_bandwidth_bytes_per_s = 0x4189000000000000

-- 2.0
abbrev declared_per_file_ms : ℕ
declared_per_file_ms = 0x4000000000000000

-- 1000.0
abbrev thousand : ℕ
thousand = 0x408f400000000000

abbrev pub declared_remote : RemoteModel
declared_remote = record {
  rtt_ms = declared_rtt_ms;
  bandwidth_bytes_per_s = declared_bandwidth_bytes_per_s;
}

abbrev pub declared_sync : SyncModel
declared_sync = record { per_file_ms = declared_per_file_ms }

unfoldable pub remote_parameters : RemoteModel → List Parameter
remote_parameters model =
    record { name = "rtt_ms"; value = model.rtt_ms; unit = "ms" }
    ∷ record { name = "bandwidth_bytes_per_s"; value = model.bandwidth_bytes_per_s; unit = "B/s" }
    ∷ []

unfoldable pub sync_parameters : SyncModel → List Parameter
sync_parameters model = record { name = "per_file_ms"; value = model.per_file_ms; unit = "ms" } ∷ []

-- `find`
unfoldable pub parameter : String → List Parameter → Option Parameter
parameter name [] = none
parameter name (p ∷ parameters) =
    let rest = parameter name parameters in if str_eq p.name name then some p else rest

unfoldable pub parameter_names : Modelled → List String
parameter_names modelled = map (λ p. p.name) modelled.parameters

-- The object of the parameters.
params : List Parameter → Map
params [] = empty
params (p ∷ ps) =
    entry p.name (object (entry "value" (float_value p.value) (entry "unit" (string p.unit) empty)))
      (params ps)

-- Backend, scale and name.
pub record Key : Type 0 where
  pub library : String
  pub scale : ℕ
  pub name : String

same_row : Key → Key → Bool
same_row a b = str_eq a.library b.library && a.scale == b.scale && str_eq a.name b.name

key : DocumentCell → String → Key
key cell name = record { library = cell.backend; scale = cell.scale; name = name }

-- What the loop keeps: the entries and the keys so far.
pub record Priced : Type 0 where
  pub out : List ModelledEntry
  pub seen : List Key

module _ (arith : Arith) where
  unfoldable pub remote_cost_ms : RemoteModel → ℕ → ℕ → ℕ
  remote_cost_ms model requests bytes =
      arith.add (arith.mul (arith.of_nat requests) model.rtt_ms)
        (arith.mul (arith.div (arith.of_nat bytes) model.bandwidth_bytes_per_s) thousand)

  unfoldable pub sync_cost_ms : SyncModel → ℕ → ℕ
  sync_cost_ms model filesystem_entries =
      arith.mul (arith.of_nat filesystem_entries) model.per_file_ms

  unfoldable pub remote_modelled : RemoteModel → String → ℕ → ℕ → Modelled
  remote_modelled model name requests bytes = record {
    name = name;
    value = remote_cost_ms model requests bytes;
    unit = "ms";
    parameters = remote_parameters model;
  }

  unfoldable pub sync_modelled : SyncModel → String → ℕ → Modelled
  sync_modelled model name filesystem_entries = record {
    name = name;
    value = sync_cost_ms model filesystem_entries;
    unit = "ms";
    parameters = sync_parameters model;
  }

  -- A cost that the cell has, unless the key was seen.
  push_cost : DocumentCell → String → List Parameter → Option ℕ → Priced → Priced
  unfolding key same_row params
  push_cost cell name parameters none priced = priced
  push_cost cell name parameters (some cost) priced =
      if any (λ k. same_row k (key cell name)) priced.seen then priced else record {
        out =
            priced.out
            ++ record {
              library = cell.backend;
              scale = cell.scale;
              name = name;
              value = cost;
              unit = "ms";
              model = object (params parameters);
            }
              ∷ [];
        seen = priced.seen ++ key cell name ∷ [];
      }

  remote_cost : Option ℕ → Option ℕ → Option ℕ
  unfolding remote_cost_ms
  remote_cost (some requests) (some bytes) = some (remote_cost_ms declared_remote requests bytes)
  remote_cost _ _ = none

  sync_cost : Option ℕ → Option ℕ
  unfolding sync_cost_ms
  sync_cost none = none
  sync_cost (some filesystem_entries) = some (sync_cost_ms declared_sync filesystem_entries)

  price_cell : DocumentCell → Priced → Priced
  unfolding push_cost remote_cost sync_cost remote_parameters sync_parameters
  price_cell cell priced =
      push_cost cell "sync_cost_ms" (sync_parameters declared_sync)
        (sync_cost cell.invariants.filesystem_entries)
        (push_cost cell "remote_cost_ms" (remote_parameters declared_remote)
          (remote_cost cell.invariants.requests cell.invariants.request_bytes) priced)

  price_cells : List DocumentCell → Priced → Priced
  unfolding price_cell
  price_cells [] priced = priced
  price_cells (cell ∷ cells) priced = price_cells cells (price_cell cell priced)

  unfoldable pub entries_for : Document → List ModelledEntry
  unfolding price_cells
  entries_for doc = (price_cells doc.cells (record { out = []; seen = [] })).out
