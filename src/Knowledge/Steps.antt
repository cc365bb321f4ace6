-- ===== src/Knowledge/Steps.antt =====
-- What a store goes through while requests and the other processes write to it.
pub mod Retry
pub mod Kept
pub mod Accepted
pub mod Sound
use persistent_memory_stack.Prelude.{some, ℕ, ◌≡◌, ◌≤◌}
use persistent_memory_stack.Prelude.Assoc.{lookup}
use persistent_memory_stack.Prelude.Result.{Result, ok}
use persistent_memory_stack.Prelude.Text.{Text}
use persistent_memory_stack.Knowledge.{KnowledgeError}
use persistent_memory_stack.Knowledge.Claims.{Row}
use persistent_memory_stack.Knowledge.Receipts.{Response, Store}
use persistent_memory_stack.Knowledge.Writes.{
  ClassifiedUpdate, ClassifiedWrite, RawRequest, Services, save_knowledge, update_knowledge,
}

pub data Request : Type 0 where
  saving : RawRequest ClassifiedWrite → Request
  updating : Text → RawRequest ClassifiedUpdate → Request

-- A request with the id and the time that it would use, and the stores that it reads on the way.
unfoldable pub perform :
    Services → Request → Text → ℕ → Store → Store → Store → Result KnowledgeError (Store × Response)
perform env (saving raw) id now seen later s = save_knowledge env raw id now seen s
perform env (updating memory_id raw) id now seen later s =
    update_knowledge env memory_id raw now seen later s

-- Other processes that neither delete nor import a memory: they leave the receipts and the history,
-- and each memory with its columns and revision.
pub record IsLater (s t : Store) : Type 0 where
  pub same_receipts : t.receipts ≡ s.receipts
  pub same_history : t.history ≡ s.history
  pub same_columns :
      (id : Text) (row : Row)
      → lookup id t.memories ≡ some row
      → (old : Row) × (lookup id s.memories ≡ some old)
        × (row.columns ≡ old.columns)
        × (row.revision ≡ old.revision)
  pub same_rows :
      (id : Text) (row : Row)
      → lookup id s.memories ≡ some row
      → (new : Row) × (lookup id t.memories ≡ some new) × (new.revision ≡ row.revision)

-- Other processes that leave the receipts, whatever they do to the memories and the history.
abbrev pub LeavesReceipts : Store → Store → Type 0
LeavesReceipts s t = t.receipts ≡ s.receipts

-- The memory of this id, if it is there, stays, at its revision or a later one.
abbrev pub KeepsMemory : Text → Store → Store → Type 0
KeepsMemory id s t =
    (row : Row)
    → lookup id s.memories ≡ some row
    → (new : Row) × (lookup id t.memories ≡ some new) × (row.revision ≤ new.revision)

-- `Others` is what the other processes may do to a store.
module _ (env : Services) (Others : Store → Store → Type 0) where
  -- A request that is refused makes no step. What it reads on the way is arbitrary.
  pub data Step (s t : Store) : Type 0 where
    performed :
        (request : Request) (id : Text) (now : ℕ) (seen later : Store) (r : Response)
        → perform env request id now seen later s ≡ ok (t, r)
        → Step s t
    others : Others s t → Step s t

  pub data Reaches (s : Store) : Store → Type 0 where
    at_start : Reaches s s
    then_step : {t u : Store} → Reaches s t → Step t u → Reaches s u
