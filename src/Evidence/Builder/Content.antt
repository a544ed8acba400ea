-- ===== src/Evidence/Builder/Content.antt =====
-- builder.go: the sections of a pack, those of the evidence first.
use compliance_gateway.Common.{
  ℕ, ◌≡◌, refl, ap, sym, ◌∙◌, inl, inr, false, Option, none, some, arith, Bool-cases, if◌then◌else◌,
}
use compliance_gateway.Text.{Text, codes, text_eq}
use compliance_gateway.Text.Laws.{text_eq_iff, text_eq_eq}
use compliance_gateway.Text.Paths.{IsPlain}
use compliance_gateway.Evidence.Value.{Value, Fields, end, field, get, set}
use compliance_gateway.Evidence.Projection.Branches.{Lacks, PlainKeys}
use compliance_gateway.Evidence.Builder.{set_all, pack_content}

-- A map holds each key once.
abbrev pub IsMap : Fields → Type 0
IsMap end = Unit
IsMap (field k v fs) = Lacks k fs × IsMap fs

get-Lacks : (k : Text) (fs : Fields) → Lacks k fs → get k fs ≡ none
unfolding get
get-Lacks k end l = refl
get-Lacks k (field j v fs) (n, l) = ground (arith, text_eq_iff j k, get-Lacks k fs l)

get-set :
    (k j : Text) (v : Value) (fs : Fields)
    → get j (set k v fs) ≡ (if text_eq k j then some v else get j fs)
unfolding get set
get-set k j v end = ground arith
get-set k j v (field i w fs) =
    ground (arith, text_eq_iff k j, text_eq_iff i k, text_eq_iff i j, get-set k j v fs)

set_other :
    (k j : Text) (v : Value) (fs : Fields) → text_eq k j ≡ false → get j (set k v fs) ≡ get j fs
set_other k j v fs z = get-set k j v fs ∙ rw z refl

-- What is written over something.
abbrev over : Option Value → Option Value → Option Value
over none o = o
over (some v) o = some v

get-set_all :
    (fs gs : Fields) (j : Text) → IsMap fs → get j (set_all fs gs) ≡ over (get j fs) (get j gs)
unfolding set_all get
get-set_all end gs j m = refl
get-set_all (field k v fs) gs j (l, m) = elim (Bool-cases (text_eq k j)) [
  | inl y ↦
      get-set_all fs (set k v gs) j m
      ∙ ap (λ o. over o (get j (set k v gs)))
          (ap (λ x. get x fs) (sym (text_eq_eq k j y)) ∙ get-Lacks k fs l)
      ∙ get-set k j v gs
      ∙ rw y refl
  | inr z ↦
      get-set_all fs (set k v gs) j m ∙ ap (over (get j fs)) (set_other k j v gs z) ∙ rw z refl
]

PlainKeys-set :
    (k : Text) (v : Value) (fs : Fields) → IsPlain k → PlainKeys fs → PlainKeys (set k v fs)
unfolding set
PlainKeys-set k v end p h = (p, tt)
PlainKeys-set k v (field j w fs) p (q, h) = elim (Bool-cases (text_eq j k)) [
  | inl y ↦ rw y (q, h)
  | inr z ↦ rw z (q, PlainKeys-set k v fs p h)
]

PlainKeys-set_all : (fs gs : Fields) → PlainKeys fs → PlainKeys gs → PlainKeys (set_all fs gs)
unfolding set_all
PlainKeys-set_all end gs h q = q
PlainKeys-set_all (field k v fs) gs (p, h) q =
    PlainKeys-set_all fs (set k v gs) h (PlainKeys-set k v gs p q)

pub PlainKeys-pack_content :
    (evidence : Fields) (version : ℕ) (rest : Fields)
    → PlainKeys evidence
    → PlainKeys rest
    → PlainKeys (pack_content evidence version rest)
unfolding pack_content
PlainKeys-pack_content evidence version rest p q =
    PlainKeys-set (codes "schema_version") _ _ ((λ e. cc), refl)
      (PlainKeys-set (codes "pack_version") _ _ ((λ e. cc), refl)
        (PlainKeys-set_all evidence _ p (PlainKeys-set_all rest end q tt)))

-- A key that BuildPack does not write itself.
abbrev pub IsOwn : Text → Type 0
IsOwn k =
    IsPlain k
    × (text_eq (codes "schema_version") k ≡ false)
    × (text_eq (codes "pack_version") k ≡ false)

pub get-pack_content :
    (evidence : Fields) (version : ℕ) (rest : Fields) (k : Text) (v : Value)
    → IsMap evidence
    → IsOwn k
    → get k evidence ≡ some v
    → get k (pack_content evidence version rest) ≡ get k evidence
unfolding pack_content
get-pack_content evidence version rest k v m (_, a, b) e =
    get-set (codes "schema_version") k _ _
    ∙ rw a (
        get-set (codes "pack_version") k _ _
        ∙ rw b (get-set_all evidence (set_all rest end) k m ∙ rw e refl))
