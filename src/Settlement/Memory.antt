-- ===== src/Settlement/Memory.antt =====
-- The in-memory settlement repository, backend/internal/settlement/infrastructure/memory: Go's map
-- from settlement ids to aggregates. Its lock is not modelled: an operation is one step.
use microgrid_cloud.Prelude.{
  ℕ, String, List, Bool, true, false, ◌||◌, ◌≡◌, Option, none, some, ◌==◌, if◌then◌else◌, arith,
  entry, assign, entry-assign,
}
use microgrid_cloud.Prelude.Platform.{Platform}
use microgrid_cloud.Prelude.Exec.{Result, ok, err}
use microgrid_cloud.Settlement.Domain.{
  SettlementAggregate, SettlementError, empty_subject_id, build_settlement_id, settlement_key,
  clone, Repository,
}

abbrev pub MemoryData : Type 0 → Type 0
MemoryData V = List (String × SettlementAggregate V)

module _ {V : Type 0} (platform : Platform) where
  cloned : Option (SettlementAggregate V) → Option (SettlementAggregate V)
  cloned none = none
  cloned (some a) = some (clone a)

  unfoldable pub find :
      String → ℕ → MemoryData V → Result SettlementError (Option (SettlementAggregate V))
  unfolding cloned
  find subject_id day_start s = elim (build_settlement_id platform subject_id day_start) [
    | err e ↦ err e
    | ok id ↦ ok (cloned (entry s id))
  ]

  unfoldable pub save : SettlementAggregate V → MemoryData V → Result SettlementError (MemoryData V)
  save a s = if a.id == "" then err empty_subject_id else ok (assign s a.id (clone a))

  abbrev pub is_some : Option (SettlementAggregate V) → Bool
  is_some none = false
  is_some (some a) = true

  abbrev pub stored : String → MemoryData V → Bool
  stored k s = is_some (entry s k)

  pub find-none :
      (subject_id : String) (day_start : ℕ) (s : MemoryData V)
      → find subject_id day_start s ≡ ok none
      → stored (settlement_key platform subject_id day_start) s ≡ false
  unfolding find build_settlement_id
  find-none subject_id day_start s h = ground arith

  pub find-some :
      (subject_id : String) (day_start : ℕ) (s : MemoryData V) (a : SettlementAggregate V)
      → find subject_id day_start s ≡ ok (some a)
      → a.is_new ≡ false
  unfolding find build_settlement_id clone
  find-some subject_id day_start s a h = ground arith

  pub save-stored :
      (a : SettlementAggregate V) (s s' : MemoryData V) (k : String)
      → save a s ≡ ok s'
      → stored k s' ≡ (a.id == k || stored k s)
  unfolding save
  save-stored a s s' k h = ground (arith, entry-assign s a.id k (clone a))

  -- The memory repository meets the interface of the service.
  abbrev pub memory_repository : Repository platform (MemoryData V) V
  memory_repository = record {
    find_by_subject_and_day = find;
    save = save;
    stored = stored;
    find_none = find-none;
    find_some = find-some;
    save-stored = save-stored;
  }
