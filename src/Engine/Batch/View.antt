-- ===== src/Engine/Batch/View.antt =====
-- What a state of the engine task has let through, as one sequence: the document operations, the
-- commit positions and the clears, in the order in which the sink will meet them.
use pg2osync.Base.{
  ℕ, ◌≡◌, refl, List, [], ◌∷◌, ◌++◌, append-nil, append_assoc, ◌==◌, if◌then◌else◌, Option,
}
use pg2osync.Base.Text.{Text}
use pg2osync.Core.Sink.{DocumentOp, LsnOp}
use pg2osync.Engine.Command.{SinkCommand, write, truncate, load_mark, position}
use pg2osync.Engine.Batch.State.{State}

pub data Item : Type 0 where
  op : DocumentOp → Item
  committed : ℕ → Item
  clear : Text → Option ℕ → Option (Text × Text) → Item

unfoldable pub mark_at : ℕ → List Item
mark_at lsn = if lsn == 0 then [] else committed lsn ∷ []

unfoldable pub view_ops : List LsnOp → List Item
view_ops [] = []
view_ops (o ∷ os) = op o.op ∷ (mark_at o.lsn.value ++ view_ops os)

unfoldable pub view_command : SinkCommand → List Item
view_command (write batch) = view_ops batch
view_command (truncate index version only) = clear index version only ∷ []
view_command (load_mark mark) = []
view_command (position lsn) = mark_at lsn.value

unfoldable pub view_sent : List SinkCommand → List Item
view_sent [] = []
view_sent (c ∷ cs) = view_command c ++ view_sent cs

unfoldable pub view : State → List Item
view s = view_sent s.sent ++ view_ops s.txn_buffer

pub view_ops-append : (os ps : List LsnOp) → view_ops (os ++ ps) ≡ view_ops os ++ view_ops ps
unfolding view_ops
view_ops-append [] ps = refl
view_ops-append (o ∷ os) ps = simp (view_ops-append os ps, append_assoc)

pub view_sent-append :
    (cs ds : List SinkCommand) → view_sent (cs ++ ds) ≡ view_sent cs ++ view_sent ds
unfolding view_sent
view_sent-append [] ds = refl
view_sent-append (c ∷ cs) ds = simp (view_sent-append cs ds, append_assoc)

pub view_sent-snoc :
    (cs : List SinkCommand) (c : SinkCommand)
    → view_sent (cs ++ c ∷ []) ≡ view_sent cs ++ view_command c
view_sent-snoc cs c = rw view_sent-append (unfold view_sent in simp append-nil)

-- `Follows log seen`: `seen` is `log` with every operation and clear in its place, and with some
-- commit positions left out.
pub data Follows : List Item → List Item → Type 0 where
  nothing : Follows [] []
  keep : {log seen : List Item} (i : Item) → Follows log seen → Follows (i ∷ log) (i ∷ seen)
  skip : {log seen : List Item} (lsn : ℕ) → Follows log seen → Follows (committed lsn ∷ log) seen

pub Follows-refl : (log : List Item) → Follows log log
Follows-refl [] = nothing
Follows-refl (i ∷ log) = keep i (Follows-refl log)

pub Follows-append :
    {log seen log' seen' : List Item}
    → Follows log seen
    → Follows log' seen'
    → Follows (log ++ log') (seen ++ seen')
Follows-append nothing g = g
Follows-append (keep i f) g = keep i (Follows-append f g)
Follows-append (skip lsn f) g = skip lsn (Follows-append f g)

-- A commit position at the end may be left out.
pub Follows-drop_last :
    {log seen : List Item} (before : List Item) (lsn : ℕ)
    → seen ≡ before ++ committed lsn ∷ []
    → Follows log seen
    → Follows log before
Follows-drop_last [] lsn e nothing = cc
Follows-drop_last (b ∷ bs) lsn e nothing = cc
Follows-drop_last before lsn e (skip l f) = skip l (Follows-drop_last before lsn e f)
Follows-drop_last [] lsn e (keep {log} {seen} i f) =
    let here : i ≡ committed lsn = cc in
    let rest : seen ≡ [] = cc in rw here (skip lsn (rw rest at f))
Follows-drop_last (b ∷ bs) lsn e (keep {log} {seen} i f) =
    let here : i ≡ b = cc in
    let rest : seen ≡ bs ++ committed lsn ∷ [] = cc in
    rw here (keep b (Follows-drop_last bs lsn rest f))
