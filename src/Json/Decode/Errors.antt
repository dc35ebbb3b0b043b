-- ===== src/Json/Decode/Errors.antt =====
-- Which exceptions `json.loads` raises: a JSONDecodeError, or a RecursionError.
use ttop_desk.Prelude.{
  ◌≡◌, refl, ◌⊎◌, inl, inr, List, [], ◌∷◌, Text, arith, ltb, Option, none, some, Bool-cases, length,
}
use ttop_desk.Python.Exceptions.{Exception, ok, err, value_error, other_error}
use ttop_desk.Python.Runtime.{Runtime}
use ttop_desk.Json.{Json, arr, obj, str}
use ttop_desk.Json.Lexer.{
  Token, open_object, close_object, open_array, close_array, comma, colon, string, word, lex,
}
use ttop_desk.Json.Decode.{
  Frame, array_frame, object_frame, Expect, value_or_close_array, value, key_or_close_object, key,
  after_key, separator, State, running, finished, raised, malformed, deliver, enter, close, begin,
  step, next, parse, result, loads, scalar,
}

abbrev IsDecodeError : Exception → Type 0
IsDecodeError e = (e ≡ value_error) ⊎ (e ≡ other_error)

module _ {F : Type 0} where
  abbrev IsSafe : State F → Type 0
  IsSafe (running _ _) = Unit
  IsSafe (finished _) = Unit
  IsSafe (raised (ok _)) = ⊥
  IsSafe (raised (err e)) = IsDecodeError e

module _ {F : Type 0} ⦃n : Runtime F⦄ where
  deliver-IsSafe : (v : Json F) (st : List (Frame F)) → IsSafe (deliver v st)
  unfolding deliver
  deliver-IsSafe v [] = tt
  deliver-IsSafe v (array_frame vs ∷ st) = tt
  deliver-IsSafe v (object_frame fs k ∷ st) = tt

  enter-IsSafe : (e : Expect) (f : Frame F) (st : List (Frame F)) → IsSafe (enter e f st)
  unfolding enter
  enter-IsSafe e f st = elim (Bool-cases (ltb (length st) n.recursion_limit)) [
    | inl h ↦ rw h tt
    | inr h ↦ rw h (inr refl)
  ]

  close-IsSafe : (t : Token) (st : List (Frame F)) → IsSafe (close t st)
  unfolding close
  close-IsSafe close_array (array_frame vs ∷ st) = deliver-IsSafe (arr vs) st
  close-IsSafe close_array (object_frame fs k ∷ st) = inl refl
  close-IsSafe close_object (object_frame fs k ∷ st) = deliver-IsSafe (obj fs) st
  close-IsSafe close_object (array_frame vs ∷ st) = inl refl
  close-IsSafe _ _ = inl refl

  begin-IsSafe : (t : Token) (st : List (Frame F)) → IsSafe (begin t st)
  unfolding begin
  begin-IsSafe open_array st = enter-IsSafe _ _ st
  begin-IsSafe open_object st = enter-IsSafe _ _ st
  begin-IsSafe (string s) st = deliver-IsSafe (str s) st
  begin-IsSafe (word w) st = scalar-IsSafe (scalar w)
    where
      scalar-IsSafe :
          (o : Option (Json F))
          → IsSafe {F = F} (elim o [ none ↦ malformed | some v ↦ deliver v st ])
      scalar-IsSafe none = inl refl
      scalar-IsSafe (some v) = deliver-IsSafe v st
  begin-IsSafe _ st = inl refl

  step-IsSafe : (e : Expect) (t : Token) (st : List (Frame F)) → IsSafe (step e t st)
  unfolding step
  step-IsSafe value t st = begin-IsSafe t st
  step-IsSafe value_or_close_array close_array st = close-IsSafe close_array st
  step-IsSafe value_or_close_array t st = begin-IsSafe t st
  step-IsSafe key (string k) [] = inl refl
  step-IsSafe key (string k) (array_frame vs ∷ st) = inl refl
  step-IsSafe key (string k) (object_frame fs j ∷ st) = tt
  step-IsSafe key _ st = inl refl
  step-IsSafe key_or_close_object (string k) [] = inl refl
  step-IsSafe key_or_close_object (string k) (array_frame vs ∷ st) = inl refl
  step-IsSafe key_or_close_object (string k) (object_frame fs j ∷ st) = tt
  step-IsSafe key_or_close_object close_object st = close-IsSafe close_object st
  step-IsSafe key_or_close_object _ st = inl refl
  step-IsSafe after_key colon st = tt
  step-IsSafe after_key _ st = inl refl
  step-IsSafe separator comma [] = inl refl
  step-IsSafe separator comma (array_frame vs ∷ st) = tt
  step-IsSafe separator comma (object_frame fs j ∷ st) = tt
  step-IsSafe separator t st = close-IsSafe t st

  parse-IsSafe : (s : State F) (ts : List Token) → IsSafe s → IsSafe (parse s ts)
  unfolding parse next
  parse-IsSafe s [] h = h
  parse-IsSafe (running e st) (t ∷ ts) h = parse-IsSafe (step e t st) ts (step-IsSafe e t st)
  parse-IsSafe (finished v) (t ∷ ts) h = parse-IsSafe malformed ts (inl refl)
  parse-IsSafe (raised r) (t ∷ ts) h = parse-IsSafe (raised r) ts h

  result-IsSafe : (s : State F) (e : Exception) → IsSafe s → result s ≡ err e → IsDecodeError e
  unfolding result
  result-IsSafe (running x st) e h p = inl (ground arith)
  result-IsSafe (finished v) e h p = cc
  result-IsSafe (raised (ok v)) e h p = absurd h
  result-IsSafe (raised (err x)) e h p = ground arith

  -- Nothing but a JSONDecodeError or a RecursionError comes out of `json.loads`.
  pub loads-errors :
      (s : Text) (e : Exception) → loads {F = F} s ≡ err e → (e ≡ value_error) ⊎ (e ≡ other_error)
  unfolding loads
  loads-errors s e = result-IsSafe _ e (parse-IsSafe (running value []) (lex s) tt)
