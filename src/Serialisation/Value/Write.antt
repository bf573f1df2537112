-- ===== src/Serialisation/Value/Write.antt =====
-- Writing: the overloads of `serialize`, `serializeSequence` and `ObjectSer`. What a function writes
-- to its `std::ostream` is its result.
use netframework.Base.{Bool, true, false, Option, none, some, [], ◌∷◌, ◌++◌, if◌then◌else◌, Bytes}
use netframework.Serialisation.Number.{to_string}
use netframework.Serialisation.Replace.{starts_with, find, replace_loop, replace_in_string}
use netframework.Serialisation.Value.{
  Value, an_int, a_string, a_vector, an_object, Values, nil, cons,
}

-- The replacement always ends: `replace_in_string-replaced`.
abbrev pub or_empty : Option Bytes → Bytes
or_empty none = []
or_empty (some text) = text

-- `replaceInString(str, "\"", "\\\"")`
unfoldable pub escape : Bytes → Bytes
unfolding replace_in_string replace_loop find starts_with
escape text = or_empty (replace_in_string text (b'"' ∷ []) (b'\\' ∷ b'"' ∷ []))

-- What stands on the stream so far is `out`; the destructor is `close`.
pub record ObjectSer : Type 0 where
  pub first : Bool
  pub out : Bytes

abbrev pub open_object : Bytes → ObjectSer
open_object out = record { first = true; out = out ++ b'{' ∷ [] }

abbrev pub close_object : ObjectSer → Bytes
close_object o = o.out ++ b'}' ∷ []

-- `operator <<`, on the text that `serialize` writes for its argument.
unfoldable pub put : ObjectSer → Bytes → ObjectSer
put o text =
    if o.first
    then record { first = false; out = o.out ++ text }
    else record o { out = o.out ++ (b',' ∷ text) }

unfoldable mutual
  unfolding escape put to_string

  pub serialize : Value → Bytes
  serialize (an_int k) = to_string k
  serialize (a_string text) = b'"' ∷ (escape text ++ b'"' ∷ [])
  serialize (a_vector vs) = b'[' ∷ (serialize_sequence true vs ++ b']' ∷ [])
  serialize (an_object vs) = close_object (put_all (open_object []) vs)

  -- The loop of `serializeSequence`; the flag is `first`.
  pub serialize_sequence : Bool → Values → Bytes
  serialize_sequence first nil = []
  serialize_sequence first (cons v vs) =
      (if first then [] else b',' ∷ []) ++ (serialize v ++ serialize_sequence false vs)

  -- `obj << a << b << ...`
  pub put_all : ObjectSer → Values → ObjectSer
  put_all o nil = o
  put_all o (cons v vs) = put_all (put o (serialize v)) vs
