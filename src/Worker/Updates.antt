-- ===== src/Worker/Updates.antt =====
-- apps/api/src/services/memory-update-routing.ts: which durable fields an update changes.
pub mod Routing
use persistent_memory_stack.Prelude.{
  Bool, List, Option, [], false, none, not, some, true, ◌&&◌, ◌||◌, ◌∷◌,
}
use persistent_memory_stack.Prelude.Text.{Text, text_eq}

pub record MemoryUpdateState : Type 0 where
  pub content : Text
  pub project : Text
  pub session_id : Option Text
  pub category : Text
  pub entities : List Text

-- A field that is not supplied is `none`; a session may be supplied as null.
pub record MemoryUpdateRequest : Type 0 where
  pub content : Option Text
  pub project : Option Text
  pub session_id : Option (Option Text)
  pub category : Option Text
  pub entities : Option (List Text)

pub record MemoryUpdateRoute : Type 0 where
  pub content_changed : Bool
  pub project_changed : Bool
  pub session_changed : Bool
  pub metadata_changed : Bool
  pub validation_required : Bool
  pub has_changes : Bool

same_strings : List Text → List Text → Bool
same_strings [] [] = true
same_strings (a ∷ as_) (b ∷ bs) = text_eq a b && same_strings as_ bs
same_strings _ _ = false

abbrev pub same_session : Option Text → Option Text → Bool
same_session none none = true
same_session (some a) (some b) = text_eq a b
same_session _ _ = false

-- `request.field !== undefined && request.field !== existing.field`
abbrev pub changes : {A : Type 0} → (A → A → Bool) → Option A → A → Bool
changes same none old = false
changes same (some new) old = not (same new old)

unfoldable pub classify_memory_update : MemoryUpdateState → MemoryUpdateRequest → MemoryUpdateRoute
unfolding same_strings
classify_memory_update existing request =
    let content = changes text_eq request.content existing.content in
    let project = changes text_eq request.project existing.project in
    let session = changes same_session request.session_id existing.session_id in
    let metadata =
      changes text_eq request.category existing.category
      || changes same_strings request.entities existing.entities in
    record {
      content_changed = content;
      project_changed = project;
      session_changed = session;
      metadata_changed = metadata;
      validation_required = content || metadata;
      has_changes = content || project || session || metadata;
    }
