-- ===== src/Dialect/RoundTrip.antt =====
-- What a datetime is after a write and a read, on each database.
use pactix.Prelude.{
  ℕ, ◌+◌, ◌-◌, ◌≡◌, ap, sym, false, true, some, arith, Option, subst, ◌⊎◌, inl, inr,
}
use pactix.Dialect.{
  DateTime, Executor, Offset, IsPostgres, IsMysql, IsAware, aware, utc, later, is_mysql, naive_utc,
  aware_utc, column, instant,
}

pub is_mysql-IsMysql : (e : Executor) → IsMysql e → is_mysql e ≡ true
unfolding is_mysql
is_mysql-IsMysql e m = rw m.named

pub is_mysql-IsPostgres : (e : Executor) → IsPostgres e → is_mysql e ≡ false
unfolding is_mysql
is_mysql-IsPostgres e p = rw p.named

zoned_eq : (d : DateTime) (o : Offset) → d.tzinfo ≡ some o → d ≡ aware d.wall o
zoned_eq d o z = ap (λ (t : Option Offset). record { wall = d.wall; tzinfo = t }) z

-- On PostgreSQL the column of an aware datetime is its instant in UTC.
pub column-IsPostgres :
    (e : Executor) (d : DateTime) → IsPostgres e → IsAware d → column e d ≡ instant d
unfolding column
column-IsPostgres e d p a =
    subst (λ x. column e x ≡ instant x) (sym (zoned_eq d a.offset a.zoned))
      (rw (column, is_mysql-IsPostgres e p) (p.binds d.wall a.offset))

-- On MySQL too.
pub column-IsMysql : (e : Executor) (d : DateTime) → IsMysql e → IsAware d → column e d ≡ instant d
unfolding column
column-IsMysql e d m a =
    subst (λ x. column e x ≡ instant x) (sym (zoned_eq d a.offset a.zoned))
      (rw (column, is_mysql-IsMysql e m) (m.binds (d.wall + a.offset.behind - a.offset.ahead)))

-- A column read back is the aware datetime of that instant in UTC, on PostgreSQL and on MySQL.
pub aware_utc-fetch-IsPostgres :
    (e : Executor) (n : ℕ) → IsPostgres e → aware_utc (e.fetch n) ≡ aware n utc
unfolding aware_utc
aware_utc-fetch-IsPostgres e n p = rw (p.fetches n)

pub aware_utc-fetch-IsMysql :
    (e : Executor) (n : ℕ) → IsMysql e → aware_utc (e.fetch n) ≡ aware n utc
unfolding aware_utc
aware_utc-fetch-IsMysql e n m = rw (m.fetches n)

-- Adding a duration keeps a datetime aware, and moves its instant by that duration.
pub later-IsAware : (d : DateTime) (x : ℕ) → IsAware d → IsAware (later d x)
later-IsAware d x a = record { offset = a.offset; zoned = a.zoned; in_range = omega arith }

pub instant-later : (d : DateTime) (x : ℕ) → IsAware d → instant (later d x) ≡ instant d + x
instant-later d x a = rw a.zoned (omega (arith, a.in_range))

-- The two normalisations undo one another: an aware datetime stripped for MySQL and read back is the
-- same instant in UTC.
aware_utc-naive_utc :
    (e : Executor) (d : DateTime) → IsAware d → aware_utc (naive_utc e d) ≡ aware (instant d) utc
unfolding aware_utc naive_utc
aware_utc-naive_utc e d a = rw a.zoned

-- The database behind an executor, on either dialect.
abbrev pub IsBackend : Executor → Type 0
IsBackend e = IsPostgres e ⊎ IsMysql e

pub aware_utc-fetch : (e : Executor) (n : ℕ) → IsBackend e → aware_utc (e.fetch n) ≡ aware n utc
aware_utc-fetch e n (inl p) = aware_utc-fetch-IsPostgres e n p
aware_utc-fetch e n (inr m) = aware_utc-fetch-IsMysql e n m

-- On either database, the column written for an aware datetime is its instant in UTC, whatever its
-- zone.
pub column-eq-instant :
    (e : Executor) (d : DateTime) → IsBackend e → IsAware d → column e d ≡ instant d
column-eq-instant e d (inl p) a = column-IsPostgres e d p a
column-eq-instant e d (inr m) a = column-IsMysql e d m a
