-- ===== src/Rpc/Examples.antt =====
-- Remote calls on concrete data: a method `int rename(int, std::string &)`.
use netframework.Base.{
  ◌≡◌, refl, true, false, [], ◌∷◌, codes, pos, ok, err, invalid_argument, arith,
}
use netframework.Serialisation.Token.{next_token}
use netframework.Serialisation.Number.{stoi, to_string, digits}
use netframework.Serialisation.Value.{
  int, string, an_int, an_object, a_string, nil, cons, end, member,
}
use netframework.Serialisation.Value.Write.{serialize, put, put_all, escape}
use netframework.Serialisation.Value.Read.{deserialize}
use netframework.Serialisation.Value.Fits.{Fits}
use netframework.Rpc.Call.{Argument, is_retval, parse_answer, call_data, read_data}
use netframework.Rpc.Cut.{read_data-call_data}
use netframework.Rpc.Answer.{received, parse_answer-serialize, returned_shapes}
use netframework.StringLiteral.{contains}

abbrev number : Argument
number = record { shape = int; returned = false; value = an_int (pos 7) }

abbrev name : Argument
name = record { shape = string; returned = true; value = a_string (codes "a") }

call_data_run : call_data (number ∷ name ∷ []) ≡ codes "{7,\"a\""
unfolding call_data put put_all serialize escape to_string digits
call_data_run = refl

parse_answer-serialize_example :
    parse_answer int
      (number ∷ name ∷ [])
      (serialize (an_object (cons (an_int (pos 9)) (cons (a_string (codes "b")) nil))))
    ≡ ok (an_int (pos 9), cons (an_int (pos 7)) (cons (a_string (codes "b")) nil))
unfolding received Fits returned_shapes
parse_answer-serialize_example =
    parse_answer-serialize int (number ∷ name ∷ []) (an_int (pos 9))
      (cons (a_string (codes "b")) nil) (ground arith) (ground arith)

-- What is sent lacks the brace, and reading cuts a byte of the last argument instead.
lost_digit : read_data (member int end) (codes "{25") ≡ ok (cons (an_int (pos 2)) nil)
unfolding read_data deserialize stoi next_token
lost_digit = refl

lost_number : read_data (member int end) (codes "{5") ≡ err invalid_argument
unfolding read_data deserialize stoi next_token
lost_number = refl

is_retval_run : is_retval (codes "std::string &") ≡ ok true
unfolding is_retval contains
is_retval_run = refl

is_retval_const : is_retval (codes "const std::string &") ≡ ok false
unfolding is_retval contains
is_retval_const = refl

read_data-call_data_example :
    read_data
      (member int end)
      (call_data (record { shape = int; returned = true; value = an_int (pos 25) } ∷ []))
    ≡ ok (cons (an_int (pos 2)) nil)
read_data-call_data_example = read_data-call_data true 25 (omega arith)
