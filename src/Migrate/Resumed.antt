-- ===== src/Migrate/Resumed.antt =====
-- store.go: a migration that was interrupted is taken up again, and one that is done is done once.
use compliance_gateway.Common.{
  ◌≡◌, ◌≢◌, refl, ap, sym, ◌∙◌, ◌⊎◌, inl, inr, true, false, Option, none, some, List, [], ◌∷◌,
  arith, Bool-cases, Option-cases,
}
use compliance_gateway.Text.{Text}
use compliance_gateway.Text.Laws.{text_eq_refl}
use compliance_gateway.Migrate.{Database, Session, is_applied, apply_all, migrate, sort_names}

abbrev row_added : {S : Type 0} → Text → S → Database S → Database S
row_added n s db = record { applied = n ∷ db.applied; schema = s }

self_applied : (n : Text) (ns : List Text) → is_applied n (n ∷ ns) ≡ true
unfolding is_applied
self_applied n ns = ground (arith, text_eq_refl n)

older_applied :
    (n m : Text) (ns : List Text) → is_applied n ns ≡ true → is_applied n (m ∷ ns) ≡ true
unfolding is_applied
older_applied n m ns h = ground arith

failed :
    {S : Type 0} (execute : Text → Option S) {a b : Text} {p : Option Text} {s : S}
    → p ≡ some a
    → execute a ≡ none
    → p ≡ some b
    → execute b ≢ some s
failed execute e f g k = cc

module _ {S : Type 0} (read_file : Text → Option Text) where
  skipped :
      (execute : Text → S → Option S) (n : Text) (ns : List Text) (db : Database S)
      → is_applied n db.applied ≡ true
      → apply_all read_file execute (n ∷ ns) db ≡ apply_all read_file execute ns db
  unfolding apply_all
  skipped execute n ns db h = rw h refl

  applied :
      (execute : Text → S → Option S) (n body : Text) (ns : List Text) (s : S) (db : Database S)
      → is_applied n db.applied ≡ false
      → read_file n ≡ some body
      → execute body db.schema ≡ some s
      → apply_all read_file execute (n ∷ ns) db ≡ apply_all read_file execute ns (row_added n s db)
  unfolding apply_all
  applied execute n body ns s db h e f = rw h (rw e (rw f refl))

  -- Without a text or without its effect the loop ends where it was.
  stopped :
      (execute : Text → S → Option S) (n : Text) (ns : List Text) (db : Database S)
      → is_applied n db.applied ≡ false
      → ((body : Text) (s : S) → read_file n ≡ some body → execute body db.schema ≢ some s)
      → (apply_all read_file execute (n ∷ ns) db).0 ≡ db
  unfolding apply_all
  stopped execute n ns db h never = elim (Option-cases (read_file n)) [
    | inl e ↦ rw h (rw e refl)
    | inr (body, e) ↦ elim (Option-cases (execute body db.schema)) [
      | inl f ↦ rw h (rw e (rw f refl))
      | inr (s, f) ↦ absurd (never body s e f)
    ]
  ]

  -- A file is there already, or it is applied, or the loop stops at it.
  data Round (execute : Text → S → Option S) (n : Text) (db : Database S) : Type 0 where
    skips : is_applied n db.applied ≡ true → Round execute n db
    applies :
        (body : Text) (s : S)
        → is_applied n db.applied ≡ false
        → read_file n ≡ some body
        → execute body db.schema ≡ some s
        → Round execute n db
    stops :
        is_applied n db.applied ≡ false
        → ((body : Text) (s : S) → read_file n ≡ some body → execute body db.schema ≢ some s)
        → Round execute n db

  turn_cases : (execute : Text → S → Option S) (n : Text) (db : Database S) → Round execute n db
  turn_cases execute n db = elim (Bool-cases (is_applied n db.applied)) [
    | inl y ↦ skips y
    | inr z ↦ elim (Option-cases (read_file n)) [
      | inl e ↦ stops z (λ body s g f. cc)
      | inr (body, e) ↦ elim (Option-cases (execute body db.schema)) [
        | inl f ↦ stops z (λ b s g k. failed (λ x. execute x db.schema) e f g k)
        | inr (s, f) ↦ applies body s z e f
      ]
    ]
  ]

  -- What was applied stays applied.
  keeps :
      (execute : Text → S → Option S) (n : Text) (ns : List Text) (db : Database S)
      → is_applied n db.applied ≡ true
      → is_applied n (apply_all read_file execute ns db).0.applied ≡ true
  unfolding apply_all
  keeps execute n [] db h = h
  keeps execute n (m ∷ ns) db h = elim (turn_cases execute m db) [
    | skips y ↦ rw (skipped execute m ns db y) (keeps execute n ns db h)
    | applies body s z e f ↦
        rw (applied execute m body ns s db z e f)
          (keeps execute n ns (row_added m s db) (older_applied n m db.applied h))
    | stops z never ↦ rw (stopped execute m ns db z never) h
  ]

  resume_all :
      (early late : Text → S → Option S) (ns : List Text) (db : Database S)
      → ((body : Text) (s t : S) → early body s ≡ some t → late body s ≡ some t)
      → apply_all read_file late ns (apply_all read_file early ns db).0
        ≡ apply_all read_file late ns db
  unfolding apply_all
  resume_all early late [] db agree = refl
  resume_all early late (n ∷ ns) db agree = elim (turn_cases early n db) [
    | skips y ↦
        ap (λ x. apply_all read_file late (n ∷ ns) x.0) (skipped early n ns db y)
        ∙ skipped late n ns (apply_all read_file early ns db).0 (keeps early n ns db y)
        ∙ resume_all early late ns db agree
        ∙ sym (skipped late n ns db y)
    | applies body s z e f ↦
        ap (λ x. apply_all read_file late (n ∷ ns) x.0) (applied early n body ns s db z e f)
        ∙ skipped late n ns (apply_all read_file early ns (row_added n s db)).0
            (keeps early n ns (row_added n s db) (self_applied n db.applied))
        ∙ resume_all early late ns (row_added n s db) agree
        ∙ sym (applied late n body ns s db z e (agree body db.schema s f))
    | stops z never ↦ ap (apply_all read_file late (n ∷ ns)) (stopped early n ns db z never)
  ]

-- The start gets to the files.
abbrev pub Reaches : Session → List Text → Type 0
Reaches session names =
    (session.names ≡ some names)
    × (session.connects ≡ true)
    × (session.locks ≡ true)
    × (session.creates_table ≡ true)

reached :
    {S : Type 0} (session : Session) (execute : Text → S → Option S) (names : List Text)
    (db : Database S)
    → Reaches session names
    → migrate session execute db ≡ apply_all session.read_file execute (sort_names names) db
unfolding migrate
reached session execute names db (e, c, l, t) = ground arith

-- Whether it gets to them or not.
left_by :
    {S : Type 0} (session : Session) (execute : Text → S → Option S) (names : List Text)
    (db : Database S)
    → session.names ≡ some names
    → ((migrate session execute db).0 ≡ db)
      ⊎ ((migrate session execute db).0
          ≡ (apply_all session.read_file execute (sort_names names) db).0)
unfolding migrate
left_by session execute names db e = elim (Bool-cases session.connects) [
  | inr z ↦ inl (ground arith)
  | inl c ↦ elim (Bool-cases session.locks) [
    | inr z ↦ inl (ground arith)
    | inl l ↦ elim (Bool-cases session.creates_table) [
      | inr z ↦ inl (ground arith)
      | inl t ↦ inr (ap (λ x. x.0) (reached session execute names db (e, c, l, t)))
    ]
  ]
]

-- A start that was interrupted anywhere is made good by the next one: when both find the same files,
-- the second start gets to them, and whatever the first could execute the second can execute with the
-- same effect, then the second start leaves the database, and ends, as it would have without the first.
pub migrate-migrate :
    {S : Type 0} (first second : Session) (early late : Text → S → Option S) (names : List Text)
    (db : Database S)
    → first.names ≡ some names
    → Reaches second names
    → first.read_file ≡ second.read_file
    → ((body : Text) (s t : S) → early body s ≡ some t → late body s ≡ some t)
    → migrate second late (migrate first early db).0 ≡ migrate second late db
migrate-migrate first second early late names db e r q agree =
    elim (left_by first early names db e) [
      | inl same ↦ ap (migrate second late) same
      | inr left ↦
          reached second late names (migrate first early db).0 r
          ∙ ap (apply_all second.read_file late (sort_names names)) left
          ∙ ap
              (λ f.
                apply_all second.read_file late (sort_names names)
                  (apply_all f early (sort_names names) db).0)
              q
          ∙ resume_all second.read_file early late (sort_names names) db agree
          ∙ sym (reached second late names db r)
    ]
