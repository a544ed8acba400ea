-- ===== src/Pipeline/Books/Deciding.antt =====
-- officer.go, `OfficerDecide`: whose decision is recorded, and over what.
use compliance_gateway.Common.{
  ℕ, ◌≤◌, ◌≡◌, refl, sym, ap, ◌∙◌, subst, true, not, none, some, List, [], ◌∷◌, ◌++◌, ltb, ◌==◌,
  ==_iff, ok, or_err, or_err_ok, map_err, map_err_ok, Holds, holds, Holds-ok, bind_Holds,
  require-Holds, arith,
}
use compliance_gateway.Text.{Text}
use compliance_gateway.Decision.{permits}
use compliance_gateway.Decision.Verify.{Struct, TypedData, Officer, verify_officer}
use compliance_gateway.Decision.Verify.Laws.{IsSignedBy, FirstAt, verify_officer_iff}
use compliance_gateway.Pipeline.{Row, conflict, bad_request, forbidden, internal}
use compliance_gateway.Pipeline.Env.{Env, Moment}
use compliance_gateway.Pipeline.Store.{Db, PendingRow, DecisionRow, at, lock_payment}
use compliance_gateway.Pipeline.Issue.{prepare_next, record_decision, decision_row}
use compliance_gateway.Pipeline.Officer.{
  officer_decide, signed_struct, signed_document, officer_input,
}
use compliance_gateway.Pipeline.Books.{Effect, books}
use compliance_gateway.Pipeline.Books.Recording.{
  record_decision-Holds, prepare_next_ok, Records-Effect,
}

lock_payment_id : (id : ℕ) (db : Db) (r : Row) → lock_payment id db ≡ ok r → r.id ≡ id
unfolding lock_payment
lock_payment_id id db r h = ground arith

not_after : (a b : ℕ) → not (ltb a b) ≡ true → b ≤ a
not_after a b h = ground arith

-- The request that is answered, the officer who answers, and the Decision that is signed.
pub record Answer (env : Env) (m : Moment) (kind : ℕ) (sig : List ℕ) (r : Row) (db : Db)
    : Type 0 where
  pub request : PendingRow
  pub officer : Officer
  pub prepared : Struct
  pub is_pending : db.pending r.id kind ≡ some request
  pub in_time : m.now ≤ request.expires_at
  pub same_nonce : prepared.nonce ≡ request.nonce
  pub same_kind : prepared.decision ≡ kind
  pub is_signed :
      IsSignedBy env.digest env.sig_to_address
        (signed_document r prepared request)
        sig
        officer.address
  pub is_first : FirstAt officer.address officer env.config.officers
  pub may_decide : permits officer.mask kind ≡ true
  pub is_next : (td : TypedData) × (prepare_next env m r kind db ≡ ok (prepared, td))

-- The row that records an answer.
abbrev pub IsRecorded :
    (env : Env) (m : Moment) (kind : ℕ) (sig : List ℕ) (r : Row) (db : Db)
    → Answer env m kind sig r db
    → DecisionRow
    → Type 0
IsRecorded env m kind sig r db a d =
    (d.decision.kind ≡ kind)
    × (d.decision.nonce ≡ a.request.nonce)
    × (d.decision.signer ≡ a.officer.address)
    × (d.decision.signature ≡ sig)
    × (d.deadline ≡ a.request.deadline)
    × (d.typed_data ≡ signed_document r a.prepared a.request)

abbrev IsAnswered : Env → Moment → ℕ → ℕ → List ℕ → Db → Db → Type 0
IsAnswered env m id kind sig db db' =
    (r : Row) × (a : Answer env m kind sig r db) × (d : DecisionRow) × (r.id ≡ id)
    × IsRecorded env m kind sig r db a d
    × (db'.decisions ≡ at r.id (db.decisions r.id ++ d ∷ []) db.decisions)
    × (db'.pending ≡ at id (λ _. none) db.pending)
    × Effect env.sha env.sign (books db) (books db')

pub officer_decide-Holds :
    (env : Env) (m : Moment) (id kind : ℕ) (sig : List ℕ) (rationale : Text) (db : Db)
    → Holds
        (λ out. IsAnswered env m id kind sig db out.1)
        (officer_decide env m id kind sig rationale db)
unfolding officer_decide
officer_decide-Holds env m id kind sig rationale db =
    require-Holds (not (env.blank rationale)) bad_request _ λ _.
      bind_Holds (lock_payment id db) _ λ r e.
        bind_Holds (or_err conflict (db.pending id kind)) _ λ q e1.
          require-Holds (not (ltb q.expires_at m.now)) conflict _ λ t.
            bind_Holds (prepare_next env m r kind db) _ λ p e2.
              require-Holds (p.0.nonce == q.nonce) conflict _ λ n.
                let doc = signed_document r p.0 q in
                let checked =
                  verify_officer env.digest env.sig_to_address doc sig kind env.config.officers in
                bind_Holds (map_err (λ _. forbidden) checked) _ λ o e3.
                  bind_Holds (or_err internal (db.recommendations id)) _ λ rec _.
                    let i = officer_input env rec o rationale sig in
                    bind_Holds (record_decision env m r (signed_struct p.0 q) doc i db) _ λ out e4.
                      let w =
                        Holds-ok (record_decision-Holds env m r (signed_struct p.0 q) doc i db)
                          e4 in
                      let (same, numbered, allowed) = prepare_next_ok env m r kind db p.0 p.1 e2 in
                      let is_open =
                        verify_officer_iff env.digest env.sig_to_address doc sig kind
                          env.config.officers o in
                      let (s, first, may) = is_open.0 (map_err_ok (λ _. forbidden) checked e3) in
                      let d = decision_row env m (signed_struct p.0 q) doc i in
                      let same_nonce = (==_iff p.0.nonce q.nonce).0 n in
                      holds (
                        r,
                        record {
                          request = q;
                          officer = o;
                          prepared = p.0;
                          is_pending =
                              subst (λ j. db.pending j kind ≡ some q)
                                (sym (lock_payment_id id db r e))
                                (or_err_ok conflict (db.pending id kind) e1);
                          in_time = not_after q.expires_at m.now t;
                          same_nonce = same_nonce;
                          same_kind = same;
                          is_signed = s;
                          is_first = first;
                          may_decide = may;
                          is_next = (p.1, e2);
                        },
                        d,
                        lock_payment_id id db r e,
                        (same, same_nonce, refl, refl, refl, refl),
                        ap (λ x. x.decisions) w.4,
                        ap (λ x. at id (λ _. none) x.pending) w.4,
                        Records-Effect env r.id d db out.1 numbered allowed w,
                      )

at_same {ℓ} : {A : Type ℓ} (id : ℕ) (v : A) (f : ℕ → A) → at id v f id ≡ v
at_same id v f = ground arith

-- An officer's decision that is accepted answers a request that was pending for this payment and
-- kind, in time and with the nonce that is next; the signature over the next Decision with the
-- request's deadline is by the first officer of the configuration with the recovered address, whose
-- mask permits the kind. The decision is stored after the others with that kind, nonce, deadline,
-- signature and signer, and no request stays pending.
pub officer_decide_ok :
    (env : Env) (m : Moment) (id kind : ℕ) (sig : List ℕ) (rationale : Text) (db db' : Db)
    (out : Text × ℕ)
    → officer_decide env m id kind sig rationale db ≡ ok (out, db')
    → (r : Row) × (a : Answer env m kind sig r db) × (d : DecisionRow) × (r.id ≡ id)
      × IsRecorded env m kind sig r db a d
      × (db'.decisions id ≡ db.decisions id ++ d ∷ [])
      × ((j : ℕ) → db'.pending id j ≡ none)
officer_decide_ok env m id kind sig rationale db db' out h =
    let (r, a, d, e, w, f, g, _) =
      Holds-ok (officer_decide-Holds env m id kind sig rationale db) h in
    (
      r,
      a,
      d,
      e,
      w,
      subst (λ i. db'.decisions i ≡ db.decisions i ++ d ∷ []) e
          (ap (λ x. x r.id) f ∙ at_same r.id _ db.decisions),
      λ j. ap (λ x. x id j) g ∙ ap (λ x. x j) (at_same id (λ _. none) db.pending),
    )
