-- ===== src/Database/Access.antt =====
-- What reaches the database in a sequence of calls of `Database`.
use mathlib.Core.List.{List, map}
use netframework.Base.{Bool, false, [], ◌∷◌, ◌++◌, All, Bytes, ◌≡◌, refl}
use netframework.Database.{Outcome, connect, set_schema, execute}
use netframework.Database.Backend.{MySql, Call, real_connect}

-- A call of `Database`, with what the library answers.
pub data Request : Type 0 where
  to_connect : Bytes → Bytes → Bytes → Bool → Bytes → Request
  to_set_schema : Bytes → Bool → Request
  to_execute : Bytes → Bool → Bytes → Request

unfoldable pub serve : Request → MySql → Outcome
unfolding connect set_schema execute
serve (to_connect host user passwd connected message) mysql =
    connect host user passwd connected message mysql
serve (to_set_schema schema selected) mysql = set_schema schema selected mysql
serve (to_execute sql done message) mysql = execute sql done message mysql

-- The results and the calls of the library, in their order, and the connection at the end.
unfoldable pub serve_all : List Request → MySql → List Bool × (List Call × MySql)
unfolding serve
serve_all [] mysql = ([], ([], mysql))
serve_all (request ∷ requests) mysql =
    let now = serve request mysql in
    let later = serve_all requests now.mysql in
    (now.returned ∷ later.0, (now.calls ++ later.1.0, later.1.1))

-- Every attempt to connect fails.
abbrev pub Unconnected : Request → Type 0
Unconnected (to_connect host user passwd connected message) = connected ≡ false
Unconnected request = Unit

abbrev pub attempts : List Request → List Call
attempts [] = []
attempts (to_connect host user passwd connected message ∷ requests) =
    real_connect host user passwd 3306 ∷ attempts requests
attempts (to_set_schema schema selected ∷ requests) = attempts requests
attempts (to_execute sql done message ∷ requests) = attempts requests

-- As long as no attempt to connect has succeeded, each call of `Database` returns false, and the
-- library is asked to connect, once for each attempt, and for nothing else: no schema and no SQL
-- text reaches it.
pub serve_all-Unconnected :
    (requests : List Request)
    → All Unconnected requests
    → serve_all requests (record { is_connected = false })
      ≡ (map (λ request. false) requests, (attempts requests, record { is_connected = false }))
unfolding serve_all
serve_all-Unconnected [] fails = refl
serve_all-Unconnected (to_connect host user passwd connected message ∷ requests) fails =
    rw (fails.0, serve_all-Unconnected requests fails.1) refl
serve_all-Unconnected (to_set_schema schema selected ∷ requests) fails =
    rw (serve_all-Unconnected requests fails.1) refl
serve_all-Unconnected (to_execute sql done message ∷ requests) fails =
    rw (serve_all-Unconnected requests fails.1) refl
