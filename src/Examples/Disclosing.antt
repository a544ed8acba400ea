-- ===== src/Examples/Disclosing.antt =====
-- canon.go, tree.go and projection.go at a concrete pack.
use compliance_gateway.Common.{
  ℕ, ◌≡◌, ◌≢◌, refl, Bool, true, false, none, some, List, [], ◌∷◌, if◌then◌else◌, Result, ok, err,
  arith, Bool-cases, inl, inr, subst, sym, ◌∙◌,
}
use compliance_gateway.Text.{
  itoa, Text, TextMap, codes, text_eq, text_le, split, lookup, hex_decode, delete_if, is_prefix,
}
use compliance_gateway.Text.Laws.{under, text_eq_iff}
use compliance_gateway.Evidence.Value.{
  Value, null, strings, int, number, text, array, object, nil, cons, Fields, end, field, get, set,
}
use compliance_gateway.Evidence.Canon.{canon}
use compliance_gateway.Evidence.Tree.{hash_fields, leaf, node_hash, master_root, evidence_root}
use compliance_gateway.Evidence.Tree.Stable.{AgreeUnder}
use compliance_gateway.Evidence.Builder.{
  Pack, Snapshot, BuildErr, round_trip, normalize, has_all, build_pack, root_changed,
}
use compliance_gateway.Evidence.Builder.Content.{IsMap}
use compliance_gateway.Evidence.Builder.Normal.{HasDecoded}
use compliance_gateway.Evidence.Builder.Normalized.{IsReadable, normalize_lem}
use compliance_gateway.Evidence.Projection.Branches.{PlainKeys}
use compliance_gateway.Evidence.Builder.Kept.{build_pack-root_kept}
use compliance_gateway.Evidence.Canon.Unordered.{same_object, same_field, swap_fields, no_fields}
use compliance_gateway.Evidence.Tree.Unordered.{roots_same}
use compliance_gateway.Evidence.Decode.{decode, is_numeral}
use compliance_gateway.Evidence.Profiles.{profiles}
use compliance_gateway.Evidence.Projection.{
  get_at, withheld_value, withhold, project, Copy, Recipient, ProjectErr, salts_fields,
}
use compliance_gateway.Evidence.Projection.Maps.{PlainTree}
use compliance_gateway.Evidence.Projection.Disclosure.{withhold_hides}
use compliance_gateway.Evidence.Projection.Issued.{project-master_root}

abbrev specimen : Value
specimen = object (
    field (codes "b") (array (cons null (cons (int 12) nil)))
      (field (codes "a") (text (codes "x\"y")) end))

-- Sorted keys, no spaces, an escaped quote.
canon-specimen : canon specimen ≡ some (codes "{\"a\":\"x\\\"y\",\"b\":[null,12]}")
unfolding canon text_le
canon-specimen = refl

-- A hash for runs: the bytes themselves.
abbrev sha : List ℕ → Text
sha bytes = bytes

abbrev blank : Text → Bool
blank t = text_eq t []

abbrev content : Fields
content =
    field (codes "travel_rule")
      (object (field (codes "originator") (text (codes "Ann")) (field (codes "kind") (int 1) end)))
      end

abbrev salts : TextMap Text
salts = (codes "travel_rule.originator", codes "0a") ∷ (codes "travel_rule.kind", codes "0b") ∷ []

-- With the inputs of a recommendation, as every pack has them.
abbrev issued_content : Fields
issued_content =
    field (codes "travel_rule")
      (object (field (codes "originator") (text (codes "Ann")) (field (codes "kind") (int 1) end)))
      (field (codes "rules")
        (object (
          field (codes "recommendation")
            (object (
              field (codes "inputs")
                (object (
                  field (codes "kyt.outcome") (text (codes "CLEAR"))
                    (field (codes "kyt.risk_level") (text (codes "LOW")) end)))
                end))
            end))
        end)

abbrev issued_salts : TextMap Text
issued_salts =
    (codes "travel_rule.originator", codes "0a")
    ∷ (codes "travel_rule.kind", codes "0b")
    ∷ (codes "rules.recommendation.inputs.kyt.outcome", codes "0c")
    ∷ (codes "rules.recommendation.inputs.kyt.risk_level", codes "0d")
    ∷ []

abbrev pack : Pack
pack = record {
  pack_id = codes "p";
  version = 1;
  content = issued_content;
  salts = issued_salts;
  master_root = codes "r";
  evidence_root = codes "e";
  jws = codes "j";
  kid = codes "k";
  prev_pack_hash = codes "0";
  pack_hash = codes "1";
}

abbrev auditor : Recipient
auditor = record { profile = codes "AUDITOR"; prepared_for = codes "Bob"; purpose = codes "audit" }

abbrev fields_of : Result ProjectErr Fields → Fields
fields_of (ok fs) = fs
fields_of (err e) = end

abbrev copy_of : Result ProjectErr Copy → Copy
copy_of (ok c) = c
copy_of (err e) = record { content = end; salts = [] }

issued_content-PlainTree : PlainTree issued_content
unfolding PlainTree get
issued_content-PlainTree = (
  ((λ e. cc), refl),
  ((λ e. cc), tt),
  inr (((λ e. cc), refl), ((λ e. cc), tt), inr tt, (((λ e. cc), refl), tt, inr tt, tt)),
  (
    ((λ e. cc), refl),
    tt,
    inr (((λ e. cc), refl), tt, inr (((λ e. cc), refl), tt, inl refl, tt), tt),
    tt,
  ),
)

issued :
    project sha blank pack auditor (codes "now")
    ≡ ok (fields_of (project sha blank pack auditor (codes "now")))
unfolding project text_eq profiles withhold split get node_hash leaf lookup hex_decode canon set
    delete_if is_prefix
issued = refl

project-master_root_example :
    (c : Copy) × (get (codes "data") (fields_of (project sha blank pack auditor (codes "now")))
      ≡ some (object c.content))
    × (get (codes "salts") (fields_of (project sha blank pack auditor (codes "now")))
        ≡ some (object (salts_fields c.salts)))
    × (master_root sha c.content c.salts ≡ master_root sha issued_content issued_salts)
project-master_root_example =
    project-master_root sha blank pack auditor (codes "now") _ issued_content-PlainTree issued

abbrev whole : Copy
whole = record { content = content; salts = salts }

abbrev originator : Text
originator = codes "travel_rule.originator"

originator_there : get_at (split originator) content ≡ some (text (codes "Ann"))
unfolding get_at split get text_eq
originator_there = refl

withheld_there : withhold sha whole originator ≡ ok (copy_of (withhold sha whole originator))
unfolding withhold get split text_eq node_hash leaf lookup hex_decode canon
withheld_there = refl

withhold_hides_example :
    (h : Text) × (node_hash sha (text (codes "Ann")) salts originator ≡ some h)
    × (get_at (split originator) (copy_of (withhold sha whole originator)).content
        ≡ some (withheld_value h))
    × ((j : Text)
        → lookup j (copy_of (withhold sha whole originator)).salts
          ≡ (if under originator j then none else lookup j salts))
withhold_hides_example =
    withhold_hides sha whole _ originator (text (codes "Ann")) originator_there withheld_there

not_under : under originator (codes "kyt") ≢ true
unfolding is_prefix text_eq
not_under e = cc

kyt_elsewhere : AgreeUnder originator salts ((codes "kyt", codes "0c") ∷ salts)
unfolding lookup
kyt_elsewhere j u = elim (Bool-cases (text_eq (codes "kyt") j)) [
  | inl y ↦ absurd (
      not_under
        (subst (λ k. under originator k ≡ true) (sym ((text_eq_iff (codes "kyt") j).0 y)) u))
  | inr n ↦ ground arith
]

-- The same data as another `range` gives it.
abbrev reordered : Fields
reordered =
    field (codes "travel_rule")
      (object (field (codes "kind") (int 1) (field (codes "originator") (text (codes "Ann")) end)))
      end

keys_differ : codes "originator" ≢ codes "kind"
keys_differ = cc

roots_same_example :
    (canon (object content) ≡ canon (object reordered))
    × (master_root sha content salts ≡ master_root sha reordered salts)
    × (evidence_root sha content salts ≡ evidence_root sha reordered salts)
roots_same_example =
    roots_same sha content reordered salts
      (same_field (same_object (swap_fields keys_differ)) no_fields)

-- The int is stored as a number.
abbrev evidence : Fields
evidence = field (codes "pack_id") (text (codes "a")) (
    field (codes "payment_ref") (text (codes "b")) (
      field (codes "onchain") (text (codes "c")) (
        field (codes "travel_rule") (text (codes "d")) (
          field (codes "wallet_ownership") (text (codes "e")) (
            field (codes "kyt") (text (codes "f")) (
              field (codes "sanctions") (text (codes "g")) (
                field (codes "structuring") (text (codes "h")) (
                  field (codes "issuer") (text (codes "i"))
                    (field (codes "rules") (text (codes "j")) (end))))))))))

abbrev evidence_salts : TextMap Text
evidence_salts =
    (codes "pack_id", codes "00")
    ∷ (codes "payment_ref", codes "01")
    ∷ (codes "onchain", codes "02")
    ∷ (codes "travel_rule", codes "03")
    ∷ (codes "wallet_ownership", codes "04")
    ∷ (codes "kyt", codes "05")
    ∷ (codes "sanctions", codes "06")
    ∷ (codes "structuring", codes "07")
    ∷ (codes "issuer", codes "08")
    ∷ (codes "rules", codes "09")
    ∷ []

-- Every hash is the same.
abbrev flat : List ℕ → Text
flat bytes = codes "ab"

abbrev snapshot : Snapshot
snapshot = record { content = evidence; salts = evidence_salts; evidence_root = codes "ab" }

abbrev other_sections : Fields
other_sections = field (codes "kyt") (int 1) (field (codes "decision") (text (codes "CREDIT")) end)

apart : {a b : Text} → text_eq a b ≡ false → a ≢ b
apart {a} {b} h e = ground (arith, text_eq_iff a b)

evidence-IsMap : IsMap evidence
unfolding text_eq
evidence-IsMap = (
  (
    apart refl,
    (
      apart refl,
      (
        apart refl,
        (apart refl, (apart refl, (apart refl, (apart refl, (apart refl, (apart refl, tt)))))),
      ),
    ),
  ),
  (
    (
      apart refl,
      (
        apart refl,
        (apart refl, (apart refl, (apart refl, (apart refl, (apart refl, (apart refl, tt)))))),
      ),
    ),
    (
      (
        apart refl,
        (apart refl, (apart refl, (apart refl, (apart refl, (apart refl, (apart refl, tt)))))),
      ),
      (
        (apart refl, (apart refl, (apart refl, (apart refl, (apart refl, (apart refl, tt)))))),
        (
          (apart refl, (apart refl, (apart refl, (apart refl, (apart refl, tt))))),
          (
            (apart refl, (apart refl, (apart refl, (apart refl, tt)))),
            (
              (apart refl, (apart refl, (apart refl, tt))),
              ((apart refl, (apart refl, tt)), ((apart refl, tt), (tt, tt))),
            ),
          ),
        ),
      ),
    ),
  ),
)

evidence-PlainKeys : PlainKeys evidence
evidence-PlainKeys = (
  ((λ e. cc), refl),
  (
    ((λ e. cc), refl),
    (
      ((λ e. cc), refl),
      (
        ((λ e. cc), refl),
        (
          ((λ e. cc), refl),
          (
            ((λ e. cc), refl),
            (((λ e. cc), refl), (((λ e. cc), refl), (((λ e. cc), refl), (((λ e. cc), refl), tt)))),
          ),
        ),
      ),
    ),
  ),
)

same_fields : {a b : Fields} → ◌≡◌ {A = Result BuildErr Fields} (ok a) (ok b) → a ≡ b
same_fields e = cc

other_normal :
    normalize other_sections
    ≡ ok (
        field
          (codes "decision")
          (text (codes "CREDIT"))
          (field (codes "kyt") (number (codes "1")) end))
unfolding normalize canon text_le decode is_numeral set text_eq
other_normal = refl

other_sections-PlainKeys : (fs : Fields) → normalize other_sections ≡ ok fs → PlainKeys fs
other_sections-PlainKeys fs e =
    subst PlainKeys (same_fields (sym other_normal ∙ e))
      (((λ e. cc), refl), (((λ e. cc), refl), tt))

build_pack-root_kept_example :
    build_pack flat (λ n. codes "0c") (λ p. some p) (codes "k") snapshot 2 other_sections [] [] 7
    ≢ err root_changed
unfolding get has_all evidence_root hex_decode canon text_eq hash_fields leaf lookup
build_pack-root_kept_example =
    build_pack-root_kept flat (λ n. codes "0c") (λ p. some p) (codes "k") snapshot 2 other_sections
      [] [] 7 evidence-IsMap evidence-PlainKeys other_sections-PlainKeys refl refl

-- A map with a text that is escaped, a list of texts and a number, in the order of the keys.
abbrev to_normalize : Fields
to_normalize =
    field (codes "a") (strings (codes "x\"y" ∷ codes "z" ∷ []))
      (field (codes "b") (object (field (codes "c") (int 12) end)) end)

abbrev when_normal : Fields
when_normal =
    field (codes "a") (array (cons (text (codes "x\"y")) (cons (text (codes "z")) nil)))
      (field (codes "b") (object (field (codes "c") (number (codes "12")) end)) end)

to_normalize-IsReadable : IsReadable (object to_normalize)
unfolding text_le text_eq
to_normalize-IsReadable = (((refl, apart refl, tt), (tt, tt)), (tt, (((tt, tt), (tt, tt)), tt)))

canon-to_normalize :
    canon (object to_normalize) ≡ some (codes "{\"a\":[\"x\\\"y\",\"z\"],\"b\":{\"c\":12}}")
unfolding canon text_le
canon-to_normalize = refl

normalize_lem_example :
    (normalize to_normalize ≡ ok when_normal)
    × HasDecoded when_normal
    × (canon (object when_normal) ≡ some (codes "{\"a\":[\"x\\\"y\",\"z\"],\"b\":{\"c\":12}}"))
    × (normalize when_normal ≡ ok when_normal)
unfolding round_trip itoa
normalize_lem_example = normalize_lem to_normalize _ to_normalize-IsReadable canon-to_normalize
