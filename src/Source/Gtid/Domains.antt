-- ===== src/Source/Gtid/Domains.antt =====
-- A MariaDB position never moves back.
use pg2osync.Base.{
  ℕ, ◌≡◌, max, Option, none, some, ◌==◌, if◌then◌else◌, arith, Bool-cases, inl, inr, ==_iff,
}
use pg2osync.Base.Map.{get, get-put}
use pg2osync.Source.Gtid.{Domains, newest, add_mariadb, domain_key}

abbrev seq_of : Option (ℕ × ℕ) → ℕ
seq_of none = 0
seq_of (some (server, seq)) = seq

-- The sequence number up to which a domain was consumed, 0 where none was.
unfoldable pub seq_at : ℕ → Domains → ℕ
seq_at domain domains = seq_of (get domain domains)

newest-max :
    (server_id seq_no : ℕ) (at : Option (ℕ × ℕ))
    → seq_of (some (newest server_id seq_no at)) ≡ max seq_no (seq_of at)
unfolding newest
newest-max server_id seq_no none = ground arith
newest-max server_id seq_no (some (server, seq)) = ground arith

-- After `add` a domain is at the larger of the number that was added and where it was, and every
-- other domain is where it was.
pub seq_at-add_mariadb :
    (domain server_id seq_no : ℕ) (domains : Domains) (other : ℕ)
    → seq_at other (add_mariadb domain server_id seq_no domains)
      ≡ (if domain == other then max seq_no (seq_at other domains) else seq_at other domains)
unfolding seq_at add_mariadb
seq_at-add_mariadb domain server_id seq_no domains other =
    rw (get-put domain other (newest server_id seq_no (get domain domains)) domains)
      (elim (Bool-cases (domain == other)) [
        | inl same ↦
            let e : domain ≡ other = (==_iff domain other).0 same in
            rw same (rw e (newest-max server_id seq_no (get other domains)))
        | inr apart ↦ rw apart
      ])
