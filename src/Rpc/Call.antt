-- ===== src/Rpc/Call.antt =====
-- lib/retvalserialisation.h and lib/remotecall.h: a call of a remote method and its answer. The
-- overloads of `parseAnswer`, `make_call` and `readData` for a number of arguments are one function of
-- the list of arguments.
use mathlib.Core.List.{List}
use netframework.Base.{Bool, true, false, not, ◌&&◌, [], ◌∷◌, Bytes, codes, Result, ok, ◌>>=◌}
use netframework.Stream.{IStream, stream}
use netframework.StringLiteral.{contains}
use netframework.Serialisation.Value.{Shape, Shapes, end, member, Value, Values, nil, cons}
use netframework.Serialisation.Value.Write.{ObjectSer, open_object, put, put_all, serialize}
use netframework.Serialisation.Value.Read.{open_deser, deserialize, deserialize_members}

-- On the text of a parameter's type.
unfoldable pub is_retval : Bytes → Result Bool
is_retval t = do
  reference ← contains t (codes "&")
  constant ← contains t (codes "const")
  ok (reference && not constant)

-- An argument: its type, whether it is a reference that the method writes, and its value.
pub record Argument : Type 0 where
  pub shape : Shape
  pub returned : Bool
  pub value : Value

abbrev pub values : List Argument → Values
values [] = nil
values (t ∷ ts) = cons t.value (values ts)

abbrev pub shapes : List Argument → Shapes
shapes [] = end
shapes (t ∷ ts) = member t.shape (shapes ts)

-- `OptionalDeserialiser`
unfoldable pub optional_deserialise : Argument → IStream → Result (Value × IStream)
optional_deserialise t s = elim t.returned [
  | true ↦ deserialize t.shape s
  | false ↦ ok (t.value, s)
]

unfoldable pub parse_arguments : List Argument → IStream → Result (Values × IStream)
unfolding optional_deserialise
parse_arguments [] s = ok (nil, s)
parse_arguments (t ∷ ts) s = do
  (v, s') ← optional_deserialise t s
  (vs, s'') ← parse_arguments ts s'
  ok (cons v vs, s'')

-- The return value, and the arguments after the call.
unfoldable pub parse_answer : Shape → List Argument → Bytes → Result (Value × Values)
unfolding parse_arguments open_deser
parse_answer tr ts answer = do
  (v, s) ← deserialize tr (open_deser (stream answer)).0
  (vs, _) ← parse_arguments ts s
  ok (v, vs)

-- `OptionalSerialiser`
unfoldable pub optional_serialise : ObjectSer → Argument → ObjectSer
optional_serialise ser t = elim t.returned [ true ↦ put ser (serialize t.value) | false ↦ ser ]

-- There is one overload, for three arguments. `out.str()` is taken while the `ObjectSer` is alive, which
-- writes its brace when it is destroyed.
unfoldable pub serialise_answer : Value → Argument → Argument → Argument → Bytes
unfolding optional_serialise put
serialise_answer tr t1 t2 t3 =
    let ser = put (open_object []) (serialize tr) in
    (optional_serialise (optional_serialise (optional_serialise ser t1) t2) t3).out

-- The data of a call, taken in the same way; a call without arguments has none.
unfoldable pub call_data : List Argument → Bytes
call_data [] = []
call_data (t ∷ ts) = (put_all (open_object []) (values (t ∷ ts))).out

-- `readData` of a handler.
unfoldable pub read_data : Shapes → Bytes → Result Values
unfolding open_deser
read_data ts text = do (vs, _) ← deserialize_members ts (open_deser (stream text)).0; ok vs

-- `make_call`, with `sendAndWait`, which a class derived from `RemoteCall` defines.
unfoldable pub make_call :
    (Bytes → Bytes → Bytes → Result Bytes)
    → Bytes
    → Bytes
    → Shape
    → List Argument
    → Result (Value × Values)
make_call send_and_wait protocol sig tr ts = do
  answer ← send_and_wait protocol sig (call_data ts)
  parse_answer tr ts answer
