-- ===== src/Engine/Batch/Window.antt =====
-- What a copy window protects: a row that the stream removed is not written again from an older
-- read, while a load is running.
use pg2osync.Base.{ℕ, ◌≡◌, List, [], ◌∷◌, Option, some, All}
use pg2osync.Base.Text.{Text, text_key, pair_key}
use pg2osync.Core.Event.{RowChange}
use pg2osync.Core.Json.{Value}
use pg2osync.Core.Sink.{DocumentOp, upsert, delete, delete_children}
use pg2osync.Engine.Batch.State.{State, RowRules}
use pg2osync.Engine.Batch.Rows.{Removed}
use pg2osync.Engine.Batch.Gathered.{shape_ops}
use pg2osync.Engine.Batch.View
use pg2osync.Engine.Batch.Floors.{Respects, Below}

-- No delete is followed by an older write of the same document.
abbrev pub Lasting : List DocumentOp → Type 0
Lasting [] = Unit
Lasting (delete index id routing (some version) ∷ ops) =
    All (Respects (index, id) version) ops × Lasting ops
Lasting (_ ∷ ops) = Lasting ops

abbrev pub Carries : Option ℕ → DocumentOp → Type 0
Carries version (upsert index id routing doc v pipeline) = v ≡ version
Carries version (delete index id routing v) = v ≡ version
Carries version (delete_children index name parent_name parent_id v) = Unit

-- The documents of a row carry the row's version.
abbrev pub Versioned : RowRules → Type 0
Versioned rules =
    (r : RowChange) (previous : Option Value)
    → All (Carries r.version) (shape_ops (rules.shape r previous))

-- A property of the document and version of each delete that carries a version.
abbrev OfDelete : (Text × Text → ℕ → Type 0) → DocumentOp → Type 0
OfDelete P (delete index id routing (some w)) = P (index, id) w
OfDelete P _ = Unit

Remembered : Removed → DocumentOp → Type 0
Remembered removed op = OfDelete (λ key w. Below key w removed) op
