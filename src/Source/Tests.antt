-- ===== src/Source/Tests.antt =====
-- The theorems on the sources' decisions at concrete inputs.
use pg2osync.Base.{
  ◌++◌, ℕ, ◌+◌, ◌*◌, ◌≡◌, ◌<◌, refl, min, max, Bool, true, false, ◌&&◌, ◌||◌, none, some, List, [],
  ◌∷◌, length, ltb, leb, ◌==◌, if◌then◌else◌, All, arith,
}
use pg2osync.Base.Map.{get, put}
use pg2osync.Base.Text.{Text, text, text_eq, text_key}
use pg2osync.Source.Reconnect.{
  ReconnectPolicy, Attempt, IsShort, max_backoff, delay_for, attempt_recovered, streak,
  delay_for-doubles, streak-gives_up,
}
use pg2osync.Source.Gtid.{
  Ranges, Domains, Consumed, add_mysql, add_mariadb, or_empty, mysql, in_mysql, GtidTracker,
  position_at,
}
use pg2osync.Source.Gtid
use pg2osync.Source.Messages
use pg2osync.Source.Packets
use pg2osync.Source.Packets.RoundTrip.{concat, read_one-frame_all}
use pg2osync.Source.Gtid.Intervals.{Normal}
use pg2osync.Source.Gtid.Numbers.{holds, IsNormal, holds-add_mysql, add_mysql-IsNormal}
use pg2osync.Source.Gtid.Tracker.{recorded, position_at-claims}
use pg2osync.Source.Gtid.Domains.{seq_at, seq_at-add_mariadb}

abbrev policy : ReconnectPolicy
policy = record { max_attempts = 2; base_backoff_ms = 1_000 }

delay_for-doubles_example :
    delay_for policy 4
    ≡ (if ltb 3 16 then min (2 * delay_for policy 3) max_backoff else delay_for policy 3)
delay_for-doubles_example = delay_for-doubles policy 3

abbrev dropped : Attempt
dropped = record { streamed_for = 50; retryable = true }

dropped-IsShort : IsShort dropped
unfolding attempt_recovered
dropped-IsShort = record { short = refl; retryable = refl }

streak-gives_up_example : streak policy (dropped ∷ dropped ∷ dropped ∷ []) 0 ≡ (
    if leb (0 + length (dropped ∷ dropped ∷ dropped ∷ [])) policy.max_attempts
    then some (0 + length (dropped ∷ dropped ∷ dropped ∷ []))
    else none)
streak-gives_up_example =
    streak-gives_up policy (dropped ∷ dropped ∷ dropped ∷ []) 0 (omega arith)
      (dropped-IsShort, (dropped-IsShort, (dropped-IsShort, tt)))

abbrev server : Text
server = text "3e11"

-- The transactions 1 to 3 and 5 to 6, which the fourth joins.
abbrev gapped : List (Text × Ranges)
gapped = (server, (1, 3) ∷ (5, 6) ∷ []) ∷ []

Normal-lookup : (b : Bool) → Normal 0 (or_empty (if b then some ((1, 3) ∷ (5, 6) ∷ []) else none))
unfolding or_empty
Normal-lookup true =
    (omega arith, omega arith, omega arith, (omega arith, omega arith, omega arith, tt))
Normal-lookup false = tt

gapped-IsNormal : IsNormal gapped
unfolding get
gapped-IsNormal = λ uuid. Normal-lookup (text_eq server uuid)

holds-add_mysql_example :
    holds server 6 (add_mysql server 4 gapped)
    ≡ ((text_eq server server && 6 == 4) || holds server 6 gapped)
holds-add_mysql_example = holds-add_mysql server 4 gapped server 6 (omega arith) gapped-IsNormal

add_mysql-IsNormal_example : IsNormal (add_mysql server 4 gapped)
add_mysql-IsNormal_example = add_mysql-IsNormal server 4 gapped (omega arith) gapped-IsNormal

filled : add_mysql server 4 gapped ≡ (server, (1, 6) ∷ []) ∷ []
unfolding add_mysql or_empty get put text_eq Gtid.add_number Gtid.follows_last Gtid.succ64
    Gtid.leading Gtid.trailing Gtid.place Gtid.join_next Gtid.coalesce Gtid.merge_from Gtid.end_last
filled = refl

-- The fourth was committed at 100, the seventh at 200.
abbrev tracker : GtidTracker
tracker = record {
  position = mysql gapped;
  pending = (100, in_mysql server 4) ∷ (200, in_mysql server 7) ∷ [];
  incomplete = false;
}

abbrev tracker_after : GtidTracker
tracker_after = record {
  position = mysql ((server, (1, 6) ∷ []) ∷ []);
  pending = (200, in_mysql server 7) ∷ [];
  incomplete = false;
}

claimed : position_at 150 tracker ≡ (some (mysql ((server, (1, 6) ∷ []) ∷ [])), tracker_after)
unfolding position_at Gtid.due Gtid.not_due Gtid.consume_all Gtid.consume Gtid.is_empty add_mysql
    or_empty get put text_eq Gtid.add_number Gtid.follows_last Gtid.succ64 Gtid.leading
    Gtid.trailing Gtid.place Gtid.join_next Gtid.coalesce Gtid.merge_from Gtid.end_last
claimed = refl

position_at-claims_example :
    (holds server 7 ((server, (1, 6) ∷ []) ∷ [])
      ≡ (recorded server 7 150 tracker.pending || holds server 7 gapped))
    × (tracker_after.position ≡ mysql ((server, (1, 6) ∷ []) ∷ []))
    × All (λ (p : ℕ × Consumed). 150 < p.0) tracker_after.pending
position_at-claims_example =
    position_at-claims server 7 150 0 tracker gapped ((server, (1, 6) ∷ []) ∷ []) refl
      (omega arith, (omega arith, tt)) (omega arith, (omega arith, tt)) gapped-IsNormal claimed

seq_at-add_mariadb_example :
    seq_at 0 (add_mariadb 0 2 90 ((0, (1, 100)) ∷ []))
    ≡ (if 0 == 0 then max 90 (seq_at 0 ((0, (1, 100)) ∷ [])) else seq_at 0 ((0, (1, 100)) ∷ []))
seq_at-add_mariadb_example = seq_at-add_mariadb 0 2 90 ((0, (1, 100)) ∷ []) 0

-- An update whose old key is there, and whose new tuple leaves a TOAST column unchanged.
abbrev wire : Messages.Message
wire =
    Messages.update 16_384 (some (Messages.key (Messages.text (text "1") ∷ [])))
      (Messages.text (text "2") ∷ Messages.unchanged_toast ∷ Messages.null ∷ [])

read_one-frame_all_example :
    (last : ℕ) × (Packets.read_one (concat (Packets.frame_all 255 (1 ∷ 2 ∷ [])) ++ 9 ∷ [])
      ≡ Packets.whole last (1 ∷ 2 ∷ []) (9 ∷ []))
read_one-frame_all_example = read_one-frame_all 255 (1 ∷ 2 ∷ []) (9 ∷ [])
