-- ===== src/Attestor/Order.antt =====
-- `firstDoc`: the order in which the documents come does not matter.
use compliance_gateway.Common.{◌≡◌, refl, ◌∙◌, true, false, some, List, [], ◌∷◌, arith}
use compliance_gateway.Text.{Text, text_eq}
use compliance_gateway.Text.Laws.{text_eq_eq}
use compliance_gateway.Text.Order.{text_le_total, text_le_antisym, text_le_trans, text_eq_sym}
use mathlib.Core.List.{Permᴰ}
use compliance_gateway.Rat.{ℤ}
use compliance_gateway.Attestor.{IdDoc, Runtime, Applicant, VerificationRequest}
use compliance_gateway.Attestor.Verifying.{
  is_before, insert_doc, sort_docs, first_doc, verify_sumsub,
}

-- Sumsub answers with this applicant.
abbrev pub answering : Runtime → Applicant → Runtime
answering rt a = record rt { applicant = λ app_token secret_key id. some a }

before_asym : (a b : IdDoc) → is_before a b ≡ true → is_before b a ≡ false
unfolding is_before
before_asym a b h = ground (
  arith,
  text_eq_sym a.country b.country,
  text_eq_sym a.id_doc_type b.id_doc_type,
  text_eq_sym a.number b.number,
  text_le_antisym a.country b.country,
  text_le_antisym a.id_doc_type b.id_doc_type,
  text_le_antisym a.number b.number,
)

same_doc :
    (a b : IdDoc)
    → text_eq a.country b.country ≡ true
    → text_eq a.id_doc_type b.id_doc_type ≡ true
    → text_eq a.number b.number ≡ true
    → a ≡ b
same_doc a b p q r =
    let p' = text_eq_eq a.country b.country p in
    let q' = text_eq_eq a.id_doc_type b.id_doc_type q in
    let r' = text_eq_eq a.number b.number r in
    λ i. record { country = p' i; id_doc_type = q' i; number = r' i }

before_connected : (a b : IdDoc) → is_before a b ≡ false → is_before b a ≡ false → a ≡ b
unfolding is_before
before_connected a b h g = ground (
  arith,
  same_doc a b,
  text_eq_sym a.country b.country,
  text_eq_sym a.id_doc_type b.id_doc_type,
  text_eq_sym a.number b.number,
  text_le_total a.country b.country,
  text_le_total a.id_doc_type b.id_doc_type,
  text_le_total a.number b.number,
)

before_cotrans :
    (a b c : IdDoc) → is_before a c ≡ true → is_before a b ≡ false → is_before b c ≡ true
unfolding is_before
before_cotrans a b c h g = ground (
  arith,
  text_eq_eq a.country c.country,
  text_eq_eq a.id_doc_type c.id_doc_type,
  text_eq_eq a.number c.number,
  text_eq_sym b.country c.country,
  text_eq_sym b.id_doc_type c.id_doc_type,
  text_eq_sym b.number c.number,
  text_eq_sym a.country b.country,
  text_eq_sym a.id_doc_type b.id_doc_type,
  text_eq_sym a.number b.number,
  text_eq_eq a.country b.country,
  text_eq_eq a.id_doc_type b.id_doc_type,
  text_eq_eq a.number b.number,
  text_eq_eq b.country c.country,
  text_eq_eq b.id_doc_type c.id_doc_type,
  text_eq_eq b.number c.number,
  text_le_total a.country b.country,
  text_le_total a.id_doc_type b.id_doc_type,
  text_le_total a.number b.number,
  text_le_trans b.country a.country c.country,
  text_le_trans b.id_doc_type a.id_doc_type c.id_doc_type,
  text_le_trans b.number a.number c.number,
  text_le_antisym a.country c.country,
  text_le_antisym a.id_doc_type c.id_doc_type,
  text_le_antisym a.number c.number,
)

insert_doc_comm :
    (a b : IdDoc) (l : List IdDoc) → insert_doc a (insert_doc b l) ≡ insert_doc b (insert_doc a l)
unfolding insert_doc
insert_doc_comm a b [] = ground (arith, before_asym a b, before_connected a b)
insert_doc_comm a b (e ∷ es) = ground (
  arith,
  before_asym a b,
  before_connected a b,
  before_cotrans e b a,
  before_cotrans e a b,
  insert_doc_comm a b es,
)

sort_docs-Perm : {ds es : List IdDoc} → Permᴰ ds es → sort_docs ds ≡ sort_docs es
unfolding sort_docs
sort_docs-Perm Permᴰ.nil = refl
sort_docs-Perm (Permᴰ.cons {a} {l₂} e p) = rw (e, sort_docs-Perm p) refl
sort_docs-Perm (Permᴰ.swap {a} {b} {l} e f) = insert_doc_comm a b (sort_docs l) ∙ rw (e, f) refl
sort_docs-Perm (Permᴰ.trans p q) = sort_docs-Perm p ∙ sort_docs-Perm q

-- An attestation by Sumsub, and with it the nullifier of the person, does not depend on the order in
-- which the applicant's documents come.
pub verify_sumsub-Perm :
    (rt : Runtime) (app_token secret_key session enclave : Text) (ttl : ℤ) (q : VerificationRequest)
    (a : Applicant) (ds : List IdDoc)
    → Permᴰ a.id_docs ds
    → verify_sumsub (answering rt a) app_token secret_key session enclave ttl q
      ≡ verify_sumsub
          (answering rt (record a { id_docs = ds }))
          app_token
          secret_key
          session
          enclave
          ttl
          q
unfolding verify_sumsub first_doc
verify_sumsub-Perm rt app_token secret_key session enclave ttl q a ds p = rw (sort_docs-Perm p) refl
