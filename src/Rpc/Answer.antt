-- ===== src/Rpc/Answer.antt =====
-- The text of a call and of its answer: what is sent of it, and what reading it gives.
use mathlib.Core.List.{List}
use netframework.Base.{
  true, false, Bool-cases, inl, inr, [], ◌∷◌, ◌++◌, append-nil, Result, ok, err, ◌>>=◌, ◌≡◌,
  Result-cases, refl, ◌∙◌, ap, sym, subst,
}
use netframework.Stream.{IStream, stream, at_end}
use netframework.Serialisation.Value.{
  Shape, object, Shapes, end, member, Value, an_object, Values, nil, cons,
}
use netframework.Serialisation.Value.Write.{
  ObjectSer, open_object, close_object, put, put_all, serialize,
}
use netframework.Serialisation.Value.Read.{open_deser, deserialize, deserialize_members}
use netframework.Serialisation.Value.Fits.{Fits, FitsMembers}
use netframework.Serialisation.Value.RoundTrip.{deserialize-serialize}
use netframework.Serialisation.Value.Tokens.{last}
use netframework.Rpc.Call.{
  Argument, optional_deserialise, parse_arguments, parse_answer, optional_serialise,
  serialise_answer, read_data,
}

-- The values that go back to the caller.
unfoldable pub returned_values : List Argument → Values
returned_values [] = nil
returned_values (t ∷ ts) =
    let later = returned_values ts in elim t.returned [ true ↦ cons t.value later | false ↦ later ]

unfoldable pub returned_shapes : List Argument → Shapes
returned_shapes [] = end
returned_shapes (t ∷ ts) =
    let later = returned_shapes ts in
    elim t.returned [ true ↦ member t.shape later | false ↦ later ]

abbrev serialise_arguments : ObjectSer → List Argument → ObjectSer
serialise_arguments ser [] = ser
serialise_arguments ser (t ∷ ts) = serialise_arguments (optional_serialise ser t) ts

serialise_arguments-put_all :
    (ser : ObjectSer) (ts : List Argument)
    → serialise_arguments ser ts ≡ put_all ser (returned_values ts)
unfolding optional_serialise returned_values put_all
serialise_arguments-put_all ser [] = refl
serialise_arguments-put_all ser (t ∷ ts) = elim (Bool-cases t.returned) [
  | inl sent ↦ rw sent (serialise_arguments-put_all (put ser (serialize t.value)) ts)
  | inr kept ↦ rw kept (serialise_arguments-put_all ser ts)
]

-- The text that `serialiseAnswer` returns is the object of the return value and of the arguments that
-- go back, in their order, without the brace that closes it.
pub serialise_answer-append :
    (tr : Value) (t1 t2 t3 : Argument)
    → serialise_answer tr t1 t2 t3 ++ (b'}' ∷ [])
      ≡ serialize (an_object (cons tr (returned_values (t1 ∷ t2 ∷ t3 ∷ []))))
unfolding serialise_answer serialize put_all
serialise_answer-append tr t1 t2 t3 =
    ap close_object
      (serialise_arguments-put_all (put (open_object []) (serialize tr)) (t1 ∷ t2 ∷ t3 ∷ []))

members-of :
    (read : Result (Values × IStream)) (s s' : IStream) (vs : Values)
    → ◌>>=◌ {B = Value × IStream} read (λ x. ok (an_object x.0, s)) ≡ ok (an_object vs, s')
    → (left : IStream) × (read ≡ ok (vs, left))
members-of (ok (us, left)) s s' vs e = (left, ap ok (ap (λ us. (us, left)) (cc e)))
members-of (err fault) s s' vs e = absurd (cc e)

-- The members of an object, read from its whole text.
members-read :
    (vs : Values) (ts : Shapes)
    → FitsMembers ts vs
    → (left : IStream) × (deserialize_members ts (open_deser (stream (serialize (an_object vs)))).0
        ≡ ok (vs, left))
unfolding deserialize Fits
members-read vs ts fits =
    let text : serialize (an_object vs) ++ [] ≡ serialize (an_object vs) = append-nil _ in
    let whole : deserialize (object ts) (stream (serialize (an_object vs)))
        ≡ ok (an_object vs, at_end) =
      ap (λ t. deserialize (object ts) (stream t)) (sym text)
      ∙ deserialize-serialize (an_object vs) (object ts) [] at_end fits last in
    members-of _ _ at_end vs whole

-- A handler that is given the whole text of the arguments, with the closing brace, reads every
-- argument that fits its type as it was sent.
pub read_data-serialize :
    (vs : Values) (ts : Shapes)
    → FitsMembers ts vs
    → read_data ts (serialize (an_object vs)) ≡ ok vs
unfolding read_data
read_data-serialize vs ts fits =
    let (left, e) = members-read vs ts fits in ap (λ r. r >>= λ x. ok x.0) e

-- The arguments after a call: those that go back are replaced by the values that came.
unfoldable pub received : List Argument → Values → Values
received [] vs = nil
received (t ∷ ts) nil = cons t.value (received ts nil)
received (t ∷ ts) (cons v vs) =
    let replaced = received ts vs in
    let kept = received ts (cons v vs) in
    elim t.returned [ true ↦ cons v replaced | false ↦ cons t.value kept ]

members-cons :
    (shape : Shape) (ts : Shapes) (s : IStream) (v : Value) (vs : Values) (left : IStream)
    → deserialize_members (member shape ts) s ≡ ok (cons v vs, left)
    → (s' : IStream) × (deserialize shape s ≡ ok (v, s'))
      × (deserialize_members ts s' ≡ ok (vs, left))
unfolding deserialize_members
members-cons shape ts s v vs left e = elim (Result-cases (deserialize shape s)) [
  | inl ((u, s'), first) ↦ elim (Result-cases (deserialize_members ts s')) [
    | inl ((us, left'), rest) ↦
        let made : deserialize_members (member shape ts) s ≡ ok (cons u us, left') =
          rw (deserialize_members, first, rest) refl in
        let same : ok (cons u us, left') ≡ ok (cons v vs, left) = sym made ∙ e in
        (s', cc (first, same), cc (rest, same))
    | inr (fault, rest) ↦
        let made : deserialize_members (member shape ts) s ≡ err fault =
          rw (deserialize_members, first, rest) refl in
        absurd (cc (sym made ∙ e))
  ]
  | inr (fault, first) ↦
      let made : deserialize_members (member shape ts) s ≡ err fault =
        rw (deserialize_members, first) refl in
      absurd (cc (sym made ∙ e))
]

returned_shapes-sent :
    (t : Argument) (ts : List Argument)
    → t.returned ≡ true
    → returned_shapes (t ∷ ts) ≡ member t.shape (returned_shapes ts)
unfolding returned_shapes
returned_shapes-sent t ts sent = rw sent refl

returned_shapes-kept :
    (t : Argument) (ts : List Argument)
    → t.returned ≡ false
    → returned_shapes (t ∷ ts) ≡ returned_shapes ts
unfolding returned_shapes
returned_shapes-kept t ts kept = rw kept refl

received-kept :
    (t : Argument) (ts : List Argument) (vs : Values)
    → t.returned ≡ false
    → received (t ∷ ts) vs ≡ cons t.value (received ts vs)
unfolding received
received-kept t ts nil kept = refl
received-kept t ts (cons v vs) kept = rw kept refl

FitsMembers-cons :
    (shape : Shape) (ts : Shapes) (vs : Values)
    → FitsMembers (member shape ts) vs
    → (v : Value) × (us : Values) × (vs ≡ cons v us) × FitsMembers ts us
unfolding Fits
FitsMembers-cons shape ts nil fits = absurd fits
FitsMembers-cons shape ts (cons v us) fits = (v, us, refl, fits.1)

received-sent :
    (t : Argument) (ts : List Argument) (v : Value) (vs : Values)
    → t.returned ≡ true
    → received (t ∷ ts) (cons v vs) ≡ cons v (received ts vs)
unfolding received
received-sent t ts v vs sent = rw sent refl

parse_arguments-members :
    (ts : List Argument) (shapes_left : Shapes) (s left : IStream) (vs : Values)
    → shapes_left ≡ returned_shapes ts
    → deserialize_members shapes_left s ≡ ok (vs, left)
    → FitsMembers shapes_left vs
    → parse_arguments ts s ≡ ok (received ts vs, left)
unfolding parse_arguments optional_deserialise returned_shapes received deserialize_members Fits
parse_arguments-members [] shapes_left s left vs same e fits =
    let read : deserialize_members end s ≡ ok (vs, left) =
      ap (λ z. deserialize_members z s) (sym same) ∙ e in
    let both : ok (nil, s) ≡ ok (vs, left) = read in cc both
parse_arguments-members (t ∷ ts) shapes_left s left vs same e fits = elim (Bool-cases t.returned) [
  | inl sent ↦
      let shape_left = same ∙ returned_shapes-sent t ts sent in
      let (v, us, split, each) =
        FitsMembers-cons t.shape (returned_shapes ts) vs
          (subst (λ z. FitsMembers z vs) shape_left fits) in
      let read : deserialize_members (member t.shape (returned_shapes ts)) s
          ≡ ok (cons v us, left) =
        ap (λ z. deserialize_members z s) (sym shape_left) ∙ e ∙ ap (λ z. ok (z, left)) split in
      let (s', first, rest) = members-cons t.shape (returned_shapes ts) s v us left read in
      let later = parse_arguments-members ts (returned_shapes ts) s' left us refl rest each in
      rw (split, received-sent t ts v us sent) (rw (sent, first, later) refl)
  | inr kept ↦
      let later =
        parse_arguments-members ts shapes_left s left vs (same ∙ returned_shapes-kept t ts kept) e
          fits in
      rw (received-kept t ts vs kept) (rw (kept, later) refl)
]

-- Reading the whole text of an answer, with the closing brace, gives the return value and the
-- arguments that came back, each in the place of its reference; the other arguments stay as they are.
pub parse_answer-serialize :
    (tr : Shape) (ts : List Argument) (r : Value) (vs : Values)
    → Fits tr r
    → FitsMembers (returned_shapes ts) vs
    → parse_answer tr ts (serialize (an_object (cons r vs))) ≡ ok (r, received ts vs)
unfolding parse_answer Fits
parse_answer-serialize tr ts r vs fits each =
    let (left, e) = members-read (cons r vs) (member tr (returned_shapes ts)) (fits, each) in
    let (s', first, rest) = members-cons tr (returned_shapes ts) _ r vs left e in
    rw (first, parse_arguments-members ts (returned_shapes ts) s' left vs refl rest each)
