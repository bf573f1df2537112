-- ===== src/Database/Backend.antt =====
-- dblib/mysql_backend.cpp, `MySQL`: the handle and whether it is connected.
use mathlib.Core.List.{List}
use netframework.Base.{ℕ, Bool, true, false, [], ◌∷◌, Bytes}

-- The handle itself belongs to the library.
pub record MySql : Type 0 where
  pub is_connected : Bool

-- The calls of the library: `mysql_real_connect` with host, user, password and port,
-- `mysql_select_db` and `mysql_query`.
pub data Call : Type 0 where
  real_connect : Bytes → Bytes → Bytes → ℕ → Call
  select_db query_text : Bytes → Call

abbrev pub new_mysql : MySql
new_mysql = record { is_connected = false }

abbrev pub with_message : Bool → Bytes → Bool × Bytes
with_message true message = (true, [])
with_message false message = (false, message)

unfoldable pub connect :
    Bytes → Bytes → Bytes → ℕ → Bool → Bytes → MySql → MySql × (List Call × (Bool × Bytes))
connect host user pw port connected message mysql = (
  record { is_connected = connected },
  (real_connect host user pw port ∷ [], with_message connected message),
)

unfoldable pub set_schema : Bytes → Bool → List Call × Bool
set_schema schema selected = (select_db schema ∷ [], selected)

unfoldable pub execute_query : Bytes → Bool → Bytes → List Call × (Bool × Bytes)
execute_query query done message = (query_text query ∷ [], with_message done message)
