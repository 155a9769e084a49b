-- ===== src/World/Sql.antt =====
-- What the queries of internal/infra/postgres share.
use ffgif.Base.{ℕ, Option, none, some, Text}
use ffgif.World.Errors.{known, no_rows, sql_refused}
use ffgif.World.Monad.{Io, ok, err, of_result}
use ffgif.World.ThirdParty.{External}

-- `$1 :: uuid`
unfoldable pub cast_uuid : External → Text → Io ℕ
cast_uuid x t = of_result (elim (x.uuid_parse t) [ none ↦ err sql_refused | some u ↦ ok u ])

-- sqlx.GetContext: the row that was found, or sql.ErrNoRows.
abbrev pub one_row : {A : Type 0} → Option A → Io A
one_row found = of_result (elim found [ none ↦ err (known no_rows) | some a ↦ ok a ])
