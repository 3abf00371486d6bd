-- ===== src/Esign/Proving.antt =====
-- A transaction becomes signed only by the provider's report of a signature on its own document, and its
-- status follows the table of moves (app/services/esign.py).
use inpockets.Base.{
  ℕ, ◌≡◌, ◌⊎◌, refl, true, false, ◌&&◌, Option, none, some, Result, ok, err, ◌>>=◌, Bool-cases,
  Result-cases, arith, inl, inr,
}
use inpockets.Statuses.{here, by_move}
use inpockets.Statuses.Finality.{EsignReaches}
use inpockets.Statuses.Esign.{EsignStatus, signed, manual_review, can_transition, is_live}
use inpockets.Esign.{
  says_signed, EsignReason, artifact_unavailable, artifact_invalid, EsignOutcome, was_signed,
  in_review, EsignError, invalid_transition, integrity_error, esign_unavailable, esign_conflict,
  not_permitted, not_found, EsignDesk, EsignCircumstances, EsignReport, same_esign_status,
  move_signature, review_signature, signing_time, with_document, sign, store_artifact, artifact_of,
  complete_signing, Fetched,
}

-- The report is that of a signature on the document of the transaction.
abbrev pub IsProof : EsignReport → EsignDesk → Type 0
IsProof r d = (r.status ≡ says_signed) × (r.checksum ≡ some d.tx.document_checksum)

-- The step follows the table and keeps the document; if it signs, there is a proof.
abbrev pub Follows : Type 0 → EsignDesk → EsignDesk → Type 0
Follows Proof d d' =
    EsignReaches d.tx.status d'.tx.status
    × (d'.tx.document_checksum ≡ d.tx.document_checksum)
    × (d'.tx.status ≡ signed → (d.tx.status ≡ signed) ⊎ Proof)

abbrev pub Ends : Type 0 → EsignDesk → Result EsignError EsignDesk → Type 0
Ends Proof d (ok d') = Follows Proof d d'
Ends Proof d (err invalid_transition) = ⊥
Ends Proof d (err _) = Unit

abbrev pub Leads : Type 0 → EsignDesk → Result EsignError (EsignOutcome × EsignDesk) → Type 0
Leads Proof d (ok (_, d')) = Follows Proof d d'
Leads Proof d (err invalid_transition) = ⊥
Leads Proof d (err _) = Unit

pub Leads-of :
    (Proof : Type 0) (d : EsignDesk) (r : Result EsignError EsignDesk) (o : EsignOutcome)
    → Ends Proof d r
    → Leads Proof d (r >>= λ d'. ok (o, d'))
Leads-of Proof d (ok d') o h = h
Leads-of Proof d (err invalid_transition) o h = h
Leads-of Proof d (err integrity_error) o h = tt
Leads-of Proof d (err esign_unavailable) o h = tt
Leads-of Proof d (err esign_conflict) o h = tt
Leads-of Proof d (err not_permitted) o h = tt
Leads-of Proof d (err not_found) o h = tt

can-distinct : (s t : EsignStatus) → can_transition s t ≡ true → same_esign_status s t ≡ false
unfolding can_transition
can-distinct s t h = ground (arith, h)

-- A move that the table allows, of a transaction with some columns changed.
pub move_signature-Ends :
    (Proof : Type 0) (d x : EsignDesk) (new : EsignStatus)
    → x.tx.status ≡ d.tx.status
    → x.tx.document_checksum ≡ d.tx.document_checksum
    → can_transition d.tx.status new ≡ true
    → (new ≡ signed → Proof)
    → Ends Proof d (move_signature new x)
unfolding move_signature
move_signature-Ends Proof d x new at sum way proof =
    let way' : can_transition x.tx.status new ≡ true = rw at way in
    let other = can-distinct x.tx.status new way' in
    elim (Bool-cases (is_live new && x.another_live)) [
      | inl e ↦ rw (other, way', e) tt
      | inr e ↦ rw (other, way', e) (by_move way here, sum, (λ s. inr (proof s)))
    ]

review_way :
    (s : EsignStatus)
    → same_esign_status s signed ≡ false
    → same_esign_status s manual_review ≡ false
    → can_transition s manual_review ≡ true
unfolding can_transition
review_way s h e = ground (arith, h, e)

-- A review, of a transaction that is not signed.
pub review_signature-Leads :
    (Proof : Type 0) (reason : EsignReason) (d : EsignDesk)
    → same_esign_status d.tx.status signed ≡ false
    → Leads Proof d (review_signature reason d)
unfolding review_signature move_signature
review_signature-Leads Proof reason d open_ =
    elim (Bool-cases (same_esign_status d.tx.status manual_review)) [
      | inl e ↦ rw e (here, refl, (λ s. inl s))
      | inr e ↦ Leads-of Proof d (move_signature manual_review d) (in_review reason) (
          move_signature-Ends Proof d d manual_review refl refl (review_way d.tx.status open_ e)
            (λ s. absurd (cc (s))))
    ]

sign-Leads :
    (Proof : Type 0) (document : Option ℕ) (time : ℕ) (d : EsignDesk)
    → can_transition d.tx.status signed ≡ true
    → Proof
    → Leads Proof d (sign document time d)
unfolding sign
sign-Leads Proof none time d way proof =
    Leads-of Proof d _ was_signed
      (move_signature-Ends Proof d (with_document none time d) signed refl refl way (λ s. proof))
sign-Leads Proof (some doc) time d way proof = Leads-of Proof d _ was_signed (
    move_signature-Ends Proof d (with_document (some doc) time d) signed refl refl way (λ s. proof))

signing_open :
    (s : EsignStatus) → can_transition s signed ≡ true → same_esign_status s signed ≡ false
signing_open s h = can-distinct s signed h

store_artifact-Leads :
    (Proof : Type 0) (e : EsignCircumstances) (occurred artifact : Option ℕ) (d : EsignDesk)
    → can_transition d.tx.status signed ≡ true
    → Proof
    → Leads Proof d (store_artifact e occurred artifact d)
unfolding store_artifact
store_artifact-Leads Proof e occurred none d way proof = elim (Bool-cases e.requires_artifact) [
  | inl f ↦
      rw f (review_signature-Leads Proof artifact_unavailable d (signing_open d.tx.status way))
  | inr f ↦ rw f (sign-Leads Proof none (signing_time occurred e.now) d way proof)
]
store_artifact-Leads Proof e occurred (some a) d way proof = elim (Bool-cases e.is_storable) [
  | inl f ↦ rw f (sign-Leads Proof (some a) (signing_time occurred e.now) d way proof)
  | inr f ↦ rw f (review_signature-Leads Proof artifact_invalid d (signing_open d.tx.status way))
]

artifact_of-error :
    (document : Option ℕ) (answer : Fetched) (e : EsignError)
    → artifact_of document answer ≡ err e
    → e ≡ esign_unavailable
artifact_of-error document answer e h = ground (arith, h)

pub complete_signing-Leads :
    (Proof : Type 0) (e : EsignCircumstances) (occurred document : Option ℕ) (d : EsignDesk)
    → can_transition d.tx.status signed ≡ true
    → Proof
    → Leads Proof d (complete_signing e occurred document d)
unfolding complete_signing
complete_signing-Leads Proof e occurred document d way proof =
    elim (Result-cases (artifact_of document e.fetching)) [
      | inl (a, f) ↦ rw f (store_artifact-Leads Proof e occurred a d way proof)
      | inr (x, f) ↦ rw (f, artifact_of-error document e.fetching x f) tt
    ]
