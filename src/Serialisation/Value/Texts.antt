-- ===== src/Serialisation/Value/Texts.antt =====
-- The text of a value in closed form: what stands between the braces is `joined`.
use netframework.Base.{
  zero, ◌≡◌, refl, sym, ap, ◌∙◌, Bool, true, false, [], ◌∷◌, ◌++◌, append_assoc, append-nil, All,
  if◌then◌else◌, ◌==◌, Bytes, arith,
}
use netframework.Serialisation.Replace.{starts_with}
use netframework.Serialisation.Replace.Spec.{replaced, replace_in_string-replaced}
use netframework.Serialisation.Value.{a_vector, an_object, Values, nil, cons}
use netframework.Serialisation.Value.Fits.{IsPlain}
use netframework.Serialisation.Value.Write.{
  escape, put, serialize, serialize_sequence, put_all, or_empty,
}

-- A backslash in front of every quote.
abbrev pub escaped : Bytes → Bytes
escaped [] = []
escaped (c ∷ text) = if c == b'"' then b'\\' ∷ b'"' ∷ escaped text else c ∷ escaped text

replaced-escaped :
    (text : Bytes) → replaced (b'"' ∷ []) (b'\\' ∷ b'"' ∷ []) zero text ≡ escaped text
unfolding replaced starts_with
replaced-escaped [] = refl
replaced-escaped (c ∷ text) = ground (arith, replaced-escaped text)

-- `serialize` of a string puts a backslash in front of every quote, and changes nothing else.
pub escape-escaped : (text : Bytes) → escape text ≡ escaped text
unfolding escape
escape-escaped text =
    ap or_empty (replace_in_string-replaced text (b'"' ∷ []) (b'\\' ∷ b'"' ∷ []) (λ e. cc))
    ∙ replaced-escaped text

escaped_plain : (text : Bytes) → All IsPlain text → escaped text ≡ text
escaped_plain [] all = refl
escaped_plain (c ∷ text) all = ground (arith, escaped_plain text all.1)

pub escape_plain : (text : Bytes) → All IsPlain text → escape text ≡ text
escape_plain text all = escape-escaped text ∙ escaped_plain text all

-- The texts of the values, with a comma between two of them, and one in front where values came before.
abbrev pub joined_after : Bool → Values → Bytes
joined_after first nil = []
joined_after true (cons v vs) = serialize v ++ joined_after false vs
joined_after false (cons v vs) = b',' ∷ (serialize v ++ joined_after false vs)

abbrev pub joined : Values → Bytes
joined = joined_after true

serialize_sequence-joined :
    (first : Bool) (vs : Values) → serialize_sequence first vs ≡ joined_after first vs
unfolding serialize_sequence
serialize_sequence-joined first nil = refl
serialize_sequence-joined true (cons v vs) =
    ap (◌++◌ (serialize v)) (serialize_sequence-joined false vs)
serialize_sequence-joined false (cons v vs) =
    ap (λ (t : Bytes). b',' ∷ (serialize v ++ t)) (serialize_sequence-joined false vs)

put_all-joined :
    (vs : Values) (first : Bool) (out : Bytes)
    → (put_all (record { first = first; out = out }) vs).out ≡ out ++ joined_after first vs
unfolding put_all put
put_all-joined nil first out = sym (append-nil out)
put_all-joined (cons v vs) true out =
    put_all-joined vs false (out ++ serialize v)
    ∙ append_assoc out (serialize v) (joined_after false vs)
put_all-joined (cons v vs) false out =
    put_all-joined vs false (out ++ (b',' ∷ serialize v))
    ∙ append_assoc out (b',' ∷ serialize v) (joined_after false vs)

pub serialize_vector : (vs : Values) → serialize (a_vector vs) ≡ b'[' ∷ (joined vs ++ b']' ∷ [])
unfolding serialize
serialize_vector vs = rw (serialize_sequence-joined true vs)

pub serialize_object : (vs : Values) → serialize (an_object vs) ≡ b'{' ∷ (joined vs ++ b'}' ∷ [])
unfolding serialize
serialize_object vs = rw (put_all-joined vs true (b'{' ∷ []))
