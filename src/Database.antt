-- ===== src/Database.antt =====
-- dblib/db.cpp, `Database`: the one connection that all statements share. What the library of MySQL
-- returns is an argument.
pub mod Backend
pub mod Access
pub mod Column
pub mod Statement
pub mod Params
pub mod Binding
pub mod Names
pub mod Filling
pub mod Columns
pub mod Kept
mod Examples
use mathlib.Core.List.{List}
use netframework.Base.{ℕ, Bool, true, false, not, [], ◌∷◌, if◌then◌else◌, Bytes}
use netframework.Database.Backend
use netframework.Database.Backend.{MySql, Call, execute_query}

-- What a function returns, the connection after it, what the library was asked, and what was printed
-- to `std::cerr`.
pub record Outcome : Type 0 where
  pub returned : Bool
  pub mysql : MySql
  pub calls : List Call
  pub printed : List Bytes

-- A line is printed where the call has failed.
abbrev pub reported : Bool × Bytes → List Bytes
reported (true, message) = []
reported (false, message) = message ∷ []

-- The flag says that `mysql_real_connect` gave a connection; the message is `mysql_error`.
unfoldable pub connect : Bytes → Bytes → Bytes → Bool → Bytes → MySql → Outcome
unfolding Backend.connect
connect host user_name passwd connected message mysql =
    let (mysql', (calls, ret)) =
      Backend.connect host user_name passwd 3306 connected message mysql in
    record { returned = ret.0; mysql = mysql'; calls = calls; printed = reported ret }

-- The flag says that `mysql_select_db` returned 0.
unfoldable pub set_schema : Bytes → Bool → MySql → Outcome
unfolding Backend.set_schema
set_schema schema selected mysql =
    if not mysql.is_connected
    then record { returned = false; mysql = mysql; calls = []; printed = [] }
    else let (calls, ret) = Backend.set_schema schema selected in
      record { returned = ret; mysql = mysql; calls = calls; printed = [] }

-- The flag says that `mysql_query` returned 0.
unfoldable pub execute : Bytes → Bool → Bytes → MySql → Outcome
unfolding execute_query
execute sql done message mysql =
    if not mysql.is_connected
    then record { returned = false; mysql = mysql; calls = []; printed = [] }
    else let (calls, ret) = execute_query sql done message in
      record { returned = ret.0; mysql = mysql; calls = calls; printed = reported ret }
