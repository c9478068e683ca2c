-- ===== src/Modelled/Sources.antt =====
-- src/storage/model.rs: what the rows of a document were computed from.
use libviprs_bench.Base.{
  ℕ, String, List, [], ◌∷◌, Option, none, some, ◌≡◌, refl, ◌⊎◌, inl, inr, All, All-append, any,
  Bool-cases, ◌∙◌,
}
use mathlib.Core.List.{Mem, mem-cons_of_mem, mem-cons_self}
use libviprs_bench.Statistics.{Arith}
use libviprs_bench.StorageDocument.Cell.{DocumentCell}
use libviprs_bench.StorageDocument.Whole.{ModelledEntry, Document}
use libviprs_bench.Modelled.{
  Parameter, Priced, declared_remote, declared_sync, remote_cost_ms, sync_cost_ms, push_cost,
  remote_cost, sync_cost, price_cell, price_cells, entries_for, same_row, key, remote_parameters,
  sync_parameters,
}

module _ (ar : Arith) where
  -- The row prices the requests of the cell, or its filesystem entries.
  abbrev pub IsCost : DocumentCell → ModelledEntry → Type 0
  IsCost cell e =
      ((e.name ≡ "remote_cost_ms")
        × (requests : ℕ) × (bytes : ℕ) × (cell.invariants.requests ≡ some requests)
        × (cell.invariants.request_bytes ≡ some bytes)
        × (e.value ≡ remote_cost_ms ar declared_remote requests bytes))
      ⊎ ((e.name ≡ "sync_cost_ms")
          × (entries : ℕ) × (cell.invariants.filesystem_entries ≡ some entries)
          × (e.value ≡ sync_cost_ms ar declared_sync entries))

  abbrev pub IsPriced : List DocumentCell → ModelledEntry → Type 0
  IsPriced cells e =
      (cell : DocumentCell) × Mem cell cells
      × (e.library ≡ cell.backend)
      × (e.scale ≡ cell.scale)
      × IsCost cell e

  push_cost-All :
      (P : ModelledEntry → Type 0) (cell : DocumentCell) (name : String)
      (parameters : List Parameter) (cost : Option ℕ) (priced : Priced)
      → ((v : ℕ) (e : ModelledEntry)
          → cost ≡ some v
          → (e.library ≡ cell.backend) × (e.scale ≡ cell.scale) × (e.name ≡ name) × (e.value ≡ v)
          → P e)
      → All P priced.out
      → All P (push_cost ar cell name parameters cost priced).out
  unfolding push_cost
  push_cost-All P cell name parameters none priced made h = h
  push_cost-All P cell name parameters (some cost) priced made h =
      elim (Bool-cases (any (λ k. same_row k (key cell name)) priced.seen)) [
        | inl old ↦ rw old h
        | inr fresh ↦
            rw fresh (All-append P priced.out _ h (made cost _ refl (refl, refl, refl, refl), tt))
      ]

  remote_cost-some :
      (requests bytes : Option ℕ) (v : ℕ)
      → remote_cost ar requests bytes ≡ some v
      → (r : ℕ) × (b : ℕ) × (requests ≡ some r)
        × (bytes ≡ some b)
        × (v ≡ remote_cost_ms ar declared_remote r b)
  unfolding remote_cost
  remote_cost-some (some r) (some b) v h = (r, b, refl, refl, cc)
  remote_cost-some (some r) none v h = cc
  remote_cost-some none bytes v h = cc

  sync_cost-some :
      (entries : Option ℕ) (v : ℕ)
      → sync_cost ar entries ≡ some v
      → (n : ℕ) × (entries ≡ some n) × (v ≡ sync_cost_ms ar declared_sync n)
  unfolding sync_cost
  sync_cost-some (some n) v h = (n, refl, cc)
  sync_cost-some none v h = cc

  price_cell-All :
      (all : List DocumentCell) (cell : DocumentCell) (priced : Priced)
      → Mem cell all
      → All (IsPriced all) priced.out
      → All (IsPriced all) (price_cell ar cell priced).out
  unfolding price_cell
  price_cell-All all cell priced mem h =
      push_cost-All (IsPriced all) cell "sync_cost_ms" (sync_parameters declared_sync) _
        (push_cost ar cell "remote_cost_ms" (remote_parameters declared_remote)
          (remote_cost ar cell.invariants.requests cell.invariants.request_bytes) priced)
        (λ v e cost (library, scale, name, value).
          let (n, there, costs) = sync_cost-some cell.invariants.filesystem_entries v cost in
          (cell, mem, library, scale, inr (name, n, there, value ∙ costs)))
        (push_cost-All (IsPriced all) cell "remote_cost_ms" (remote_parameters declared_remote) _
          priced
          (λ v e cost (library, scale, name, value).
            let (r, b, requests, bytes, costs) =
              remote_cost-some cell.invariants.requests cell.invariants.request_bytes v cost in
            (cell, mem, library, scale, inl (name, r, b, requests, bytes, value ∙ costs)))
          h)

  price_cells-All :
      (all cells : List DocumentCell) (priced : Priced)
      → ((cell : DocumentCell) → Mem cell cells → Mem cell all)
      → All (IsPriced all) priced.out
      → All (IsPriced all) (price_cells ar cells priced).out
  unfolding price_cells
  price_cells-All all [] priced sub h = h
  price_cells-All all (cell ∷ cells) priced sub h =
      price_cells-All all cells _ (λ c mem. sub c (mem-cons_of_mem cell mem))
        (price_cell-All all cell priced (sub cell mem-cons_self) h)

  -- Every row of a document names the library and the scale of one of its cells, and is the remote
  -- cost of the requests and bytes or the sync cost of the entries that this cell has: a cell without
  -- them has no row.
  pub entries_for-IsPriced : (doc : Document) → All (IsPriced doc.cells) (entries_for ar doc)
  unfolding entries_for
  entries_for-IsPriced doc = price_cells-All doc.cells doc.cells _ (λ c mem. mem) tt
