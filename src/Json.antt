-- ===== src/Json.antt =====
-- Values that `JSON.parse` returns, which code inspects field by field. A number that is not an
-- integer, or too large to be finite, is only told apart from the others.
use persistent_memory_stack.Prelude.{Bool, List, Option, [], if◌then◌else◌, none, some, ◌∷◌}
use persistent_memory_stack.Prelude.Text.{Text, text_eq}
use persistent_memory_stack.Prelude.Int.{ℤ}

mutual
  pub data Json : Type 0 where
    null fraction infinity : Json
    bool : Bool → Json
    num : ℤ → Json
    str : Text → Json
    arr : Elems → Json
    obj : Props → Json

  pub data Elems : Type 0 where
    cons : Json → Elems → Elems
    nil : Elems

  pub data Props : Type 0 where
    prop : Text → Json → Props → Props
    end : Props

abbrev pub elems : Elems → List Json
elems (cons first rest) = first ∷ elems rest
elems nil = []

abbrev pub keys : Props → List Text
keys end = []
keys (prop k v ps) = k ∷ keys ps

-- `value.key`, where `undefined` is `none`.
unfoldable pub field : Text → Props → Option Json
field k end = none
field k (prop j v ps) = if text_eq j k then some v else field k ps
