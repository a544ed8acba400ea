-- ===== src/Evidence/Builder/Normalized.antt =====
-- builder.go: what `normalize` gives.
use compliance_gateway.Common.{
  true, ◌≡◌, ◌≢◌, refl, ap, sym, ◌∙◌, some, none, List, [], ◌∷◌, append-nil, ok, Option,
}
use compliance_gateway.Text.{Text}
use compliance_gateway.Evidence.Value.{
  Value, null, boolean, number, int, text, array, strings, object, unsupported, Items, nil, cons,
  Fields, end, field, texts,
}
use compliance_gateway.Evidence.Canon.{canon, write}
use compliance_gateway.Evidence.Decode.{decode, run, want, complete, top, is_numeral, map_of}
use compliance_gateway.Evidence.Decode.Numerals.{is_numeral-itoa}
use compliance_gateway.Evidence.Decode.Ordered.{Precedes, InOrder}
use compliance_gateway.Evidence.Decode.Values.{IsRead, AllRead, HasRead, read_fields, read_object}
use compliance_gateway.Evidence.Builder.{round_trip, round_trip_items, round_trip_fields, normalize}
use compliance_gateway.Evidence.Builder.Normal.{HasDecoded, write-round_trip, round_trip-IsDecoded}

-- Every json.Number is a numeral of JSON, and the fields of each map, which has no order in Go, stand
-- in the order of their keys, which are different.
abbrev mutual
  pub IsReadable : Value → Type 0
  IsReadable null = Unit
  IsReadable (boolean b) = Unit
  IsReadable (number x) = is_numeral x ≡ true
  IsReadable (int n) = Unit
  IsReadable (text s) = Unit
  IsReadable (array vs) = AllReadable vs
  IsReadable (strings l) = Unit
  IsReadable (object fs) = InOrder fs × HasReadable fs
  IsReadable unsupported = Unit

  pub AllReadable : Items → Type 0
  AllReadable nil = Unit
  AllReadable (cons v vs) = IsReadable v × AllReadable vs

  pub HasReadable : Fields → Type 0
  HasReadable end = Unit
  HasReadable (field k v fs) = IsReadable v × HasReadable fs

texts-AllRead : (l : List Text) → AllRead (texts l)
texts-AllRead [] = tt
texts-AllRead (s ∷ l) = (tt, texts-AllRead l)

Precedes-round_trip : (k : Text) (fs : Fields) → Precedes k fs → Precedes k (round_trip_fields fs)
unfolding round_trip
Precedes-round_trip k end p = tt
Precedes-round_trip k (field j v fs) p = (p.0, p.1, Precedes-round_trip k fs p.2)

InOrder-round_trip : (fs : Fields) → InOrder fs → InOrder (round_trip_fields fs)
unfolding round_trip
InOrder-round_trip end o = tt
InOrder-round_trip (field k v fs) o = (Precedes-round_trip k fs o.0, InOrder-round_trip fs o.1)

mutual
  unfolding round_trip

  round_trip-IsRead : (v : Value) → IsReadable v → IsRead (round_trip v)
  round_trip-IsRead null r = tt
  round_trip-IsRead (boolean b) r = tt
  round_trip-IsRead (number x) r = r
  round_trip-IsRead (int n) r = is_numeral-itoa n
  round_trip-IsRead (text s) r = tt
  round_trip-IsRead (array vs) r = round_trip-AllRead vs r
  round_trip-IsRead (strings l) r = texts-AllRead l
  round_trip-IsRead (object fs) r = (InOrder-round_trip fs r.0, round_trip-HasRead fs r.1)
  round_trip-IsRead unsupported r = tt

  round_trip-AllRead : (vs : Items) → AllReadable vs → AllRead (round_trip_items vs)
  round_trip-AllRead nil r = tt
  round_trip-AllRead (cons v vs) r = (round_trip-IsRead v r.0, round_trip-AllRead vs r.1)

  round_trip-HasRead : (fs : Fields) → HasReadable fs → HasRead (round_trip_fields fs)
  round_trip-HasRead end r = tt
  round_trip-HasRead (field k v fs) r = (round_trip-IsRead v r.0, round_trip-HasRead fs r.1)

-- What is written of a map is read as the map.
decode-write :
    (fs : Fields) (b : Text)
    → InOrder fs
    → HasRead fs
    → write (object fs) ≡ some b
    → decode b ≡ some fs
unfolding decode
decode-write fs b o r h =
    ap (λ x. map_of (run x (want top))) (sym (append-nil b))
    ∙ ap map_of (
        read_object fs b [] top o h (λ k x m g. read_fields fs k x m end [] top r g)
        ∙ read_nothing (complete (object fs) top))
  where
    read_nothing : (s : _) → run [] s ≡ s
    read_nothing s = refl

normalize-decoded :
    (fs gs : Fields) (b : Text)
    → write (object fs) ≡ some b
    → decode b ≡ some gs
    → normalize fs ≡ ok gs
unfolding normalize canon
normalize-decoded fs gs b h d = rw h (rw d refl)

some_ne : {A : Type 0} {o : Option A} {a : A} → o ≡ some a → o ≢ none
some_ne e f = cc

-- When a map can be written, its numbers are numerals and its fields are listed by their keys,
-- `normalize` gives the map in which every integer is a json.Number of its numeral and every []string
-- an []any, at every depth. Every value of the result is of a type that decoding JSON gives; the
-- result has the canonical bytes of the map that it was made from, and is left as it is when it is
-- normalized again.
pub normalize_lem :
    (fs : Fields) (b : Text)
    → IsReadable (object fs)
    → canon (object fs) ≡ some b
    → (normalize fs ≡ ok (round_trip_fields fs))
      × HasDecoded (round_trip_fields fs)
      × (canon (object (round_trip_fields fs)) ≡ some b)
      × (normalize (round_trip_fields fs) ≡ ok (round_trip_fields fs))
unfolding canon round_trip
normalize_lem fs b r h =
    let same = write-round_trip (object fs) ∙ h in
    let o = InOrder-round_trip fs r.0 in
    let read = decode-write (round_trip_fields fs) b o (round_trip-HasRead fs r.1) same in
    (
      normalize-decoded fs (round_trip_fields fs) b h read,
      round_trip-IsDecoded (object fs) (some_ne h),
      same,
      normalize-decoded (round_trip_fields fs) (round_trip_fields fs) b same read,
    )
