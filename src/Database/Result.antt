-- ===== src/Database/Result.antt =====
-- What a statement returns, and the errors that the server tells apart.
-- `no_rows` is pgx.ErrNoRows, `unique_violation` is SQLSTATE 23505, and `failed` is any other error:
-- a CHECK or a foreign key that does not hold, a lost connection.
use match_camp.Database.Models.{Db}

pub data DbError : Type 0 where
  no_rows unique_violation failed : DbError

pub data Result (E A : Type 0) : Type 0 where
  ok : A → Result E A
  err : E → Result E A

-- A statement that fails leaves the tables alone.
abbrev pub Query : Type 0 → Type 0
Query A = Db → Result DbError (A × Db)
