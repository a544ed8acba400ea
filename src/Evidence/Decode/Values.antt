-- ===== src/Evidence/Decode/Values.antt =====
-- canon.go: what `Canon` writes is read back.
use compliance_gateway.Common.{
  ℕ, ◌≡◌, refl, ap, sym, ◌∙◌, inl, inr, true, false, Option, none, some, List, [], ◌∷◌, ◌++◌, ◌||◌,
  ◌==◌, arith, append_assoc, Bool-cases, subst, if◌then◌else◌,
}
use compliance_gateway.Text.{Text, TextMap}
use compliance_gateway.Evidence.Value.{
  Value, null, boolean, number, int, text, array, strings, object, unsupported, Items, nil, cons,
  Fields, end, field, set,
}
use compliance_gateway.Evidence.Canon.{
  write, write_items, write_fields, write_string, escape_all, commas, members, sort, braces,
  brackets, is_float,
}
use compliance_gateway.Evidence.Builder.{set_all}
use compliance_gateway.Evidence.Decode.{
  Stack, items, pair, key, content, run, step, want, first_item, first_key, want_key, complete,
  is_numeral, is_numeral_byte, is_space, is_digit, add_last, in_string,
}
use compliance_gateway.Evidence.Decode.Strings.{run-write_string}
use compliance_gateway.Evidence.Decode.Numerals.{run-numeral, numeral_head}
use compliance_gateway.Evidence.Decode.Ordered.{
  InOrder, set_all-InOrder, sort-InOrder, added_some, some_map,
}

-- Values that decoding can give, with their maps in order.
abbrev mutual
  pub IsRead : Value → Type 0
  IsRead null = Unit
  IsRead (boolean b) = Unit
  IsRead (number x) = is_numeral x ≡ true
  IsRead (int n) = ⊥
  IsRead (text s) = Unit
  IsRead (array vs) = AllRead vs
  IsRead (strings l) = ⊥
  IsRead (object fs) = InOrder fs × HasRead fs
  IsRead unsupported = Unit

  pub AllRead : Items → Type 0
  AllRead nil = Unit
  AllRead (cons v vs) = IsRead v × AllRead vs

  pub HasRead : Fields → Type 0
  HasRead end = Unit
  HasRead (field k v fs) = IsRead v × HasRead fs

some_text : {a b : Text} → some a ≡ some b → a ≡ b
some_text e = cc

some_texts : {a b : List Text} → some a ≡ some b → a ≡ b
some_texts e = cc

items_some :
    (o : Option Text) (m : Option (List Text)) {x : Text} {l : List Text}
    → elim o [ none ↦ none | some y ↦ elim m [ none ↦ none | some k ↦ some (y ∷ k) ] ]
      ≡ some (x ∷ l)
    → (o ≡ some x) × (m ≡ some l)
items_some none m h = cc
items_some (some y) none h = cc
items_some (some y) (some k) h = (cc, cc)

-- A value does not begin like the end of a list, nor with a space.
abbrev IsHead : Text → Type 0
IsHead x = (c : ℕ) × (y : Text) × (x ≡ c ∷ y) × (is_space c ≡ false) × ((c == b']') ≡ false)

not_end : (c : ℕ) → (is_digit c || c == b'-') ≡ true → (is_space c ≡ false) × ((c == b']') ≡ false)
not_end c h = (ground arith, ground arith)

number_some : (x b : Text) → (if is_float x then none else some x) ≡ some b → x ≡ b
number_some x b h = elim (Bool-cases (is_float x)) [ inl y ↦ ground arith | inr z ↦ ground arith ]

bracketed :
    (o : Option (List Text)) (b : Text)
    → elim o as (λ _. Option Text) [ none ↦ none | some l ↦ some (brackets (commas l)) ] ≡ some b
    → (l : List Text) × (o ≡ some l) × (brackets (commas l) ≡ b)
bracketed none b h = cc
bracketed (some l) b h = (l, refl, cc)

braced :
    (o : Option (TextMap Text)) (b : Text)
    → elim o as (λ _. Option Text) [
      | none ↦ none
      | some m ↦ some (braces (commas (members (sort m))))
    ]
      ≡ some b
    → (m : TextMap Text) × (o ≡ some m) × (braces (commas (members (sort m))) ≡ b)
braced none b h = cc
braced (some m) b h = (m, refl, cc)

write-IsHead : (v : Value) (b : Text) → IsRead v → write v ≡ some b → IsHead b
unfolding write write_string
write-IsHead null b r h = subst IsHead (some_text h) (b'n', _, refl, refl, refl)
write-IsHead (boolean true) b r h = subst IsHead (some_text h) (b't', _, refl, refl, refl)
write-IsHead (boolean false) b r h = subst IsHead (some_text h) (b'f', _, refl, refl, refl)
write-IsHead (number x) b r h =
    let (c, y, e, d) = numeral_head x r in
    let (s, n) = not_end c d in subst IsHead (number_some x b h) (c, y, e, s, n)
write-IsHead (int n) b r h = absurd r
write-IsHead (text s) b r h = subst IsHead (some_text h) (b'"', _, refl, refl, refl)
write-IsHead (array vs) b r h =
    let (l, _, e) = bracketed (write_items vs) b h in subst IsHead e (b'[', _, refl, refl, refl)
write-IsHead (strings l) b r h = absurd r
write-IsHead (object fs) b r h =
    let (m, _, e) = braced (write_fields fs) b h in subst IsHead e (b'{', _, refl, refl, refl)
write-IsHead unsupported b r h = cc

first_step :
    (c : ℕ) (st : Stack)
    → is_space c ≡ false
    → (c == b']') ≡ false
    → step c (first_item st) ≡ step c (want (items nil st))
unfolding step
first_step c st s n = rw s (rw n refl)

run-first :
    (x t : Text) (st : Stack)
    → IsHead x
    → run (x ++ t) (first_item st) ≡ run (x ++ t) (want (items nil st))
unfolding run
run-first x t st (c, y, e, s, n) =
    subst (λ z. run (z ++ t) (first_item st) ≡ run (z ++ t) (want (items nil st))) (sym e)
      (ap (run (y ++ t)) (first_step c st s n))

concat : Items → Items → Items
concat nil ws = ws
concat (cons v vs) ws = cons v (concat vs ws)

concat_add :
    (vs : Items) (v : Value) (ws : Items) → concat (add_last vs v) ws ≡ concat vs (cons v ws)
unfolding concat
concat_add nil v ws = refl
concat_add (cons u vs) v ws = ap (cons u) (concat_add vs v ws)

add_concat : (vs : Items) (v : Value) → add_last vs v ≡ concat vs (cons v nil)
unfolding concat
add_concat nil v = refl
add_concat (cons u vs) v = ap (cons u) (add_concat vs v)

-- The bytes of one field, and what follows them.
member_bytes :
    (k x t : Text)
    → (write_string k ++ b':' ∷ x) ++ t ≡ b'"' ∷ (escape_all k ++ b'"' ∷ b':' ∷ (x ++ t))
unfolding write_string
member_bytes k x t =
    ap (λ z. b'"' ∷ z)
      (append_assoc (escape_all k ++ b'"' ∷ []) (b':' ∷ x) t
        ∙ append_assoc (escape_all k) (b'"' ∷ []) (b':' ∷ (x ++ t)))

run-member :
    (k x t : Text) (gs : Fields) (st : Stack)
    → run ((write_string k ++ b':' ∷ x) ++ t) (want_key gs st) ≡ run (x ++ t) (want (pair gs k st))
unfolding run
run-member k x t gs st =
    ap (λ z. run z (want_key gs st)) (member_bytes k x t)
    ∙ run-write_string k (b':' ∷ (x ++ t)) (key gs st)

commas_more :
    (x y : Text) (l : List Text) (t : Text)
    → commas (x ∷ y ∷ l) ++ t ≡ x ++ b',' ∷ (commas (y ∷ l) ++ t)
unfolding commas
commas_more x y l t = append_assoc x (b',' ∷ commas (y ∷ l)) t

-- Bytes that begin with the first item's, and so are no end of a list.
run-commas_first :
    (x : Text) (l : List Text) (t : Text) (st : Stack)
    → IsHead x
    → run (commas (x ∷ l) ++ t) (first_item st) ≡ run (commas (x ∷ l) ++ t) (want (items nil st))
unfolding commas
run-commas_first x [] t st h = run-first x t st h
run-commas_first x (y ∷ l) t st h =
    subst (λ z. run z (first_item st) ≡ run z (want (items nil st))) (sym (commas_more x y l t))
      (run-first x (b',' ∷ (commas (y ∷ l) ++ t)) st h)

first_key_same :
    (k x : Text) (m : TextMap Text) (t : Text) (st : Stack)
    → run (commas (members ((k, x) ∷ m)) ++ t) (first_key st)
      ≡ run (commas (members ((k, x) ∷ m)) ++ t) (want_key end st)
unfolding run commas members write_string
first_key_same k x [] t st = refl
first_key_same k x ((j, y) ∷ m) t st = refl

run_text :
    (s rest : Text) (st : Stack)
    → run (write_string s ++ rest) (want st) ≡ run rest (complete (text s) st)
unfolding write_string run
run_text s rest st =
    ap (λ z. run z (in_string [] (content st))) (append_assoc (escape_all s) (b'"' ∷ []) rest)
    ∙ run-write_string s rest (content st)

read_array :
    (vs : Items) (l : List Text) (t : Text) (st : Stack)
    → AllRead vs
    → write_items vs ≡ some l
    → ((x : Text) (k : List Text)
        → write_items vs ≡ some (x ∷ k)
        → run (commas (x ∷ k) ++ b']' ∷ t) (want (items nil st)) ≡ run t (complete (array vs) st))
    → run ((commas l ++ b']' ∷ []) ++ t) (first_item st) ≡ run t (complete (array vs) st)
unfolding run commas write
read_array nil [] t st r h each = refl
read_array nil (x ∷ l) t st r h each = cc
read_array (cons v vs) [] t st r h each = ground arith
read_array (cons v vs) (x ∷ l) t st r h each =
    let (e, f) = items_some (write v) (write_items vs) h in
    ap (λ z. run z (first_item st)) (append_assoc (commas (x ∷ l)) (b']' ∷ []) t)
    ∙ run-commas_first x l (b']' ∷ t) st (write-IsHead v x r.0 e)
    ∙ each x l h

pub read_object :
    (fs : Fields) (b t : Text) (st : Stack)
    → InOrder fs
    → write (object fs) ≡ some b
    → ((k x : Text) (m : TextMap Text)
        → write_fields fs ≡ some ((k, x) ∷ m)
        → run (commas (members ((k, x) ∷ m)) ++ b'}' ∷ t) (want_key end st)
          ≡ run t (complete (object (set_all fs end)) st))
    → run (b ++ t) (want st) ≡ run t (complete (object fs) st)
unfolding write run members commas sort
read_object end b t st o h each =
    subst (λ y. run (y ++ t) (want st) ≡ run t (complete (object end) st)) (some_text h) refl
read_object (field k v fs) b t st o h each =
    let (m, f, e) = braced (write_fields (field k v fs)) b h in
    let (x, n, g, i, c) = added_some k (write v) (write_fields fs) f in
    subst (λ y. run (y ++ t) (want st) ≡ run t (complete (object (field k v fs)) st)) e
      (ap (λ z. run ((commas (members z) ++ b'}' ∷ []) ++ t) (first_key st))
          (sort-InOrder (field k v fs) m o f ∙ sym c)
        ∙ ap (λ z. run z (first_key st))
            (append_assoc (commas (members ((k, x) ∷ n))) (b'}' ∷ []) t)
        ∙ first_key_same k x n (b'}' ∷ t) st
        ∙ each k x n (f ∙ ap some (sym c))
        ∙ ap (λ z. run t (complete (object z) st)) (set_all-InOrder (field k v fs) o))

mutual
  unfolding write run members commas set_all concat

  read :
      (v : Value) (b : Text) (d : ℕ) (rest : Text) (st : Stack)
      → IsRead v
      → write v ≡ some b
      → is_numeral_byte d ≡ false
      → run (b ++ d ∷ rest) (want st) ≡ run (d ∷ rest) (complete v st)
  read null b d rest st r h z =
      subst (λ x. run (x ++ d ∷ rest) (want st) ≡ run (d ∷ rest) (complete null st)) (some_text h)
        refl
  read (boolean true) b d rest st r h z =
      subst (λ x. run (x ++ d ∷ rest) (want st) ≡ run (d ∷ rest) (complete (boolean true) st))
        (some_text h) refl
  read (boolean false) b d rest st r h z =
      subst (λ x. run (x ++ d ∷ rest) (want st) ≡ run (d ∷ rest) (complete (boolean false) st))
        (some_text h) refl
  read (number x) b d rest st r h z =
      subst (λ y. run (y ++ d ∷ rest) (want st) ≡ run (d ∷ rest) (complete (number x) st))
        (number_some x b h) (run-numeral x d rest st r z)
  read (int n) b d rest st r h z = absurd r
  read (text s) b d rest st r h z =
      subst (λ y. run (y ++ d ∷ rest) (want st) ≡ run (d ∷ rest) (complete (text s) st))
        (some_text h) (run_text s (d ∷ rest) st)
  read (array vs) b d rest st r h z =
      let (l, f, e) = bracketed (write_items vs) b h in
      subst (λ y. run (y ++ d ∷ rest) (want st) ≡ run (d ∷ rest) (complete (array vs) st)) e
        (read_array vs l (d ∷ rest) st r f (λ x k g. read_items vs x k nil (d ∷ rest) st r g))
  read (strings l) b d rest st r h z = absurd r
  read (object fs) b d rest st r h z =
      read_object fs b (d ∷ rest) st r.0 h (λ k x m g. read_fields fs k x m end (d ∷ rest) st r.1 g)
  read unsupported b d rest st r h z = cc

  read_items :
      (vs : Items) (x : Text) (l : List Text) (acc : Items) (t : Text) (st : Stack)
      → AllRead vs
      → write_items vs ≡ some (x ∷ l)
      → run (commas (x ∷ l) ++ b']' ∷ t) (want (items acc st))
        ≡ run t (complete (array (concat acc vs)) st)
  read_items nil x l acc t st r h = cc
  read_items (cons v nil) x [] acc t st r h =
      let (e, f) = items_some (write v) (write_items nil) h in
      read v x b']' t (items acc st) r.0 e refl
      ∙ ap (λ z. run t (complete (array z) st)) (add_concat acc v)
  read_items (cons v nil) x (y ∷ l) acc t st r h =
      let (e, f) = items_some (write v) (write_items nil) h in cc
  read_items (cons v (cons w vs)) x [] acc t st r h =
      let (e, f) = items_some (write v) (write_items (cons w vs)) h in ground arith
  read_items (cons v (cons w vs)) x (y ∷ l) acc t st r h =
      let (e, f) = items_some (write v) (write_items (cons w vs)) h in
      ap (λ z. run z (want (items acc st))) (commas_more x y l (b']' ∷ t))
      ∙ read v x b',' (commas (y ∷ l) ++ b']' ∷ t) (items acc st) r.0 e refl
      ∙ read_items (cons w vs) y l (add_last acc v) t st r.1 f
      ∙ ap (λ z. run t (complete (array z) st)) (concat_add acc v (cons w vs))

  pub read_fields :
      (fs : Fields) (k x : Text) (m : TextMap Text) (gs : Fields) (t : Text) (st : Stack)
      → HasRead fs
      → write_fields fs ≡ some ((k, x) ∷ m)
      → run (commas (members ((k, x) ∷ m)) ++ b'}' ∷ t) (want_key gs st)
        ≡ run t (complete (object (set_all fs gs)) st)
  read_fields end k x m gs t st r h = cc
  read_fields (field j v end) k x m gs t st r h =
      let (y, n, g, i, c) = added_some j (write v) (write_fields end) h in
      subst
        (λ q.
          run (commas (members q) ++ b'}' ∷ t) (want_key gs st)
          ≡ run t (complete (object (set j v gs)) st))
        (ap (λ q. (j, y) ∷ q) (some_map i) ∙ c)
        (run-member j y (b'}' ∷ t) gs st ∙ read v y b'}' t (pair gs j st) r.0 g refl)
  read_fields (field j v (field a w fs)) k x m gs t st r h =
      let (y, n, g, i, c) = added_some j (write v) (write_fields (field a w fs)) h in
      let (u, q, _, _, e) = added_some a (write w) (write_fields fs) i in
      subst
        (λ q.
          run (commas (members q) ++ b'}' ∷ t) (want_key gs st)
          ≡ run t (complete (object (set_all (field j v (field a w fs)) gs)) st))
        (ap (λ z. (j, y) ∷ z) e ∙ c)
        (ap (λ z. run z (want_key gs st))
            (commas_more (write_string j ++ b':' ∷ y) (write_string a ++ b':' ∷ u) (members q)
              (b'}' ∷ t))
          ∙ run-member j y (b',' ∷ (commas (members ((a, u) ∷ q)) ++ b'}' ∷ t)) gs st
          ∙ read v y b',' (commas (members ((a, u) ∷ q)) ++ b'}' ∷ t) (pair gs j st) r.0 g refl
          ∙ read_fields (field a w fs) a u q (set j v gs) t st r.1 (i ∙ ap some (sym e)))
