-- ===== src/Serialisation/Value/Scan.antt =====
-- How `nextToken` passes over the text of a value that stands between braces.
use netframework.Base.{
  ℕ, zero, suc, ◌+◌, ◌≡◌, ◌≢◌, ◌⊎◌, inl, inr, refl, sym, subst, ℕ_discrete, ap, ◌∙◌, Bool, true,
  false, [], ◌∷◌, ◌++◌, append_assoc, append-nil, All, Bytes, arith, pos, negsuc, ℤ,
}
use netframework.Stream.{stream, at_end}
use netframework.Serialisation.Token.{Token, brace_loop, step_depth}
use netframework.Serialisation.Number.{to_string}
use netframework.Serialisation.Number.RoundTrip.{IsDigit, digits-IsDigit}
use netframework.Serialisation.Value.{
  Shape, string, vector, object, Shapes, member, Value, an_int, a_string, a_vector, an_object,
  Values, nil, cons,
}
use netframework.Serialisation.Value.Fits.{IsPlain, Fits, FitsEach, FitsMembers}
use netframework.Serialisation.Value.Write.{serialize}
use netframework.Serialisation.Value.Texts.{
  joined, joined_after, escape_plain, serialize_vector, serialize_object,
}

module _ (open_brace close_brace : ℕ) where
  -- `brace_loop` with the byte in hand back in front of the others.
  unfoldable pub brace_all : ℕ → Bytes → Bytes → Token
  brace_all depth ret [] = (ret, at_end)
  brace_all zero ret (c ∷ rest) = (ret, stream rest)
  brace_all (suc depth) ret (c ∷ rest) =
      brace_all (step_depth open_brace close_brace c (suc depth)) (ret ++ c ∷ []) rest

  pub brace_loop-brace_all :
      (rest : Bytes) (c depth : ℕ) (ret : Bytes)
      → brace_loop open_brace close_brace c depth ret rest ≡ brace_all depth ret (c ∷ rest)
  unfolding brace_loop brace_all
  brace_loop-brace_all rest c zero ret = refl
  brace_loop-brace_all [] c (suc depth) ret = refl
  brace_loop-brace_all (x ∷ rest) c (suc depth) ret = brace_loop-brace_all rest x _ (ret ++ c ∷ [])

  pub brace_step :
      (depth depth' c : ℕ) (ret rest : Bytes)
      → step_depth open_brace close_brace c (suc depth) ≡ depth'
      → brace_all (suc depth) ret (c ∷ rest) ≡ brace_all depth' (ret ++ c ∷ []) rest
  unfolding brace_all
  brace_step depth depth' c ret rest e = ap (λ (d : ℕ). brace_all d (ret ++ c ∷ []) rest) e

  -- The loop takes the whole text and is at the same depth behind it.
  abbrev pub Passes : Bytes → Type 0
  Passes text =
      (depth : ℕ) (ret rest : Bytes)
      → brace_all (suc depth) ret (text ++ rest) ≡ brace_all (suc depth) (ret ++ text) rest

  Passes-nil : Passes []
  Passes-nil depth ret rest = rw append-nil

  Passes-append : (a b : Bytes) → Passes a → Passes b → Passes (a ++ b)
  Passes-append a b pa pb depth ret rest =
      rw (append_assoc a b rest, pa depth ret (b ++ rest), pb depth (ret ++ a) rest)
        (rw append_assoc)

  Passes-cons :
      (c : ℕ) (text : Bytes) → c ≢ open_brace → c ≢ close_brace → Passes text → Passes (c ∷ text)
  Passes-cons c text no_open no_close p depth ret rest =
      brace_step depth (suc depth) c ret (text ++ rest) (ground arith)
      ∙ p depth (ret ++ c ∷ []) rest
      ∙ rw append_assoc

  Passes-enclosed :
      (text : Bytes)
      → open_brace ≢ close_brace
      → Passes text
      → Passes (open_brace ∷ (text ++ close_brace ∷ []))
  Passes-enclosed text ne p depth ret rest = rw append_assoc (
      brace_step depth (suc (suc depth)) open_brace ret (text ++ close_brace ∷ rest) (ground arith)
      ∙ p (suc depth) (ret ++ open_brace ∷ []) (close_brace ∷ rest)
      ∙ brace_step (suc depth) (suc depth) close_brace _ rest (ground arith)
      ∙ rw (append_assoc, append_assoc))

-- The two pairs of braces.
abbrev pub IsBraces : ℕ → ℕ → Type 0
IsBraces o c = ((o ≡ b'[') × (c ≡ b']')) ⊎ ((o ≡ b'{') × (c ≡ b'}'))

module _ (o c : ℕ) (braces : IsBraces o c) where
  Passes-plain : (text : Bytes) → All IsPlain text → Passes o c text
  Passes-plain [] all = Passes-nil o c
  Passes-plain (x ∷ text) all =
      Passes-cons o c x text (ground arith) (ground arith) (Passes-plain text all.1)

  Passes-digits : (text : Bytes) → All IsDigit text → Passes o c text
  Passes-digits [] all = Passes-nil o c
  Passes-digits (x ∷ text) all =
      Passes-cons o c x text (ground arith) (ground arith) (Passes-digits text all.1)

  Passes-byte : (x : ℕ) → x ≢ o → x ≢ c → Passes o c (x ∷ [])
  Passes-byte x no_open no_close = Passes-cons o c x [] no_open no_close (Passes-nil o c)

  Passes-to_string : (k : ℤ) → Passes o c (to_string k)
  unfolding to_string
  Passes-to_string (pos n) = Passes-digits _ (digits-IsDigit (n + 1) n [] tt)
  Passes-to_string (negsuc n) =
      Passes-cons o c b'-' _ (ground arith) (ground arith)
        (Passes-digits _ (digits-IsDigit (n + 2) (n + 1) [] tt))

  Passes-quoted : (text : Bytes) → All IsPlain text → Passes o c (b'"' ∷ (text ++ b'"' ∷ []))
  Passes-quoted text all = Passes-cons o c b'"' _ (ground arith) (ground arith) (
      Passes-append o c text _ (Passes-plain text all)
        (Passes-byte b'"' (ground arith) (ground arith)))

  -- A pair of braces of either kind.
  Passes-braces :
      (o' c' : ℕ) (text : Bytes)
      → IsBraces o' c'
      → Passes o c text
      → Passes o c (o' ∷ (text ++ c' ∷ []))
  Passes-braces o' c' text kind p = elim (ℕ_discrete o' o) [
    | yes same ↦
        let same' : c' ≡ c = ground arith in
        rw (same, same') (Passes-enclosed o c text (ground arith) p)
    | no other ↦
        Passes-cons o c o' _ other (ground arith)
          (Passes-append o c text _ p (Passes-byte c' (ground arith) (ground arith)))
  ]

  mutual
    unfolding Fits serialize

    pub serialize-Passes : (v : Value) (shape : Shape) → Fits shape v → Passes o c (serialize v)
    serialize-Passes (an_int k) shape fits = Passes-to_string k
    serialize-Passes (a_string text) string fits =
        rw (escape_plain text fits) (Passes-quoted text fits)
    serialize-Passes (a_vector vs) (vector shape) fits =
        subst (Passes o c) (sym (serialize_vector vs)) (
          Passes-braces b'[' b']' (joined vs) (inl (refl, refl))
            (joined-Passes-each vs true shape fits))
    serialize-Passes (an_object vs) (object shapes) fits =
        subst (Passes o c) (sym (serialize_object vs)) (
          Passes-braces b'{' b'}' (joined vs) (inr (refl, refl))
            (joined-Passes-members vs true shapes fits))
    serialize-Passes _ _ fits = absurd fits

    pub joined-Passes-each :
        (vs : Values) (first : Bool) (shape : Shape)
        → FitsEach shape vs
        → Passes o c (joined_after first vs)
    joined-Passes-each nil first shape fits = Passes-nil o c
    joined-Passes-each (cons v vs) true shape fits =
        Passes-append o c _ _ (serialize-Passes v shape fits.0)
          (joined-Passes-each vs false shape fits.2)
    joined-Passes-each (cons v vs) false shape fits =
        Passes-cons o c b',' _ (ground arith) (ground arith) (
          Passes-append o c _ _ (serialize-Passes v shape fits.0)
            (joined-Passes-each vs false shape fits.2))

    pub joined-Passes-members :
        (vs : Values) (first : Bool) (shapes : Shapes)
        → FitsMembers shapes vs
        → Passes o c (joined_after first vs)
    joined-Passes-members nil first shapes fits = Passes-nil o c
    joined-Passes-members (cons v vs) true (member shape shapes) fits =
        Passes-append o c _ _ (serialize-Passes v shape fits.0)
          (joined-Passes-members vs false shapes fits.1)
    joined-Passes-members (cons v vs) false (member shape shapes) fits =
        Passes-cons o c b',' _ (ground arith) (ground arith) (
          Passes-append o c _ _ (serialize-Passes v shape fits.0)
            (joined-Passes-members vs false shapes fits.1))
    joined-Passes-members _ _ _ fits = absurd fits
