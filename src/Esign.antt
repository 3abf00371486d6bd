-- ===== src/Esign.antt =====
-- Electronic signatures (app/services/esign.py and app/models/esign_transaction.py): one transaction under its lock,
-- and what is done to it by callbacks, polls, the start of signing and reviews. The document service and
-- the provider are answers that are arguments; a checksum is a number. Time stamps but those that are
-- read again, reasons and audit entries are left out. `Initiating` is the creation of a transaction.
pub mod Proving
pub mod Signing
pub mod Steps
pub mod Calls
pub mod Initiating
use inpockets.Base.{
  ℕ, ltb, leb, ◌==◌, String, Bool, true, false, not, List, ◌&&◌, ◌||◌, Option, none, some,
  if◌then◌else◌, Result, ok, err, raise_if, ◌>>=◌, ◌>>◌,
}
use inpockets.Repayment.Payments.Applying.{is_among}
use inpockets.Statuses.Esign.{
  EsignStatus, initiated, pending, signed, failed, expired, manual_review, can_transition, is_live,
}

-- The status that the provider reports; `says_other` is any other text.
pub data EsignSays : Type 0 where
  says_pending says_signed says_failed says_expired says_other : EsignSays

pub data EsignReason : Type 0 where
  document_mismatch late_signed signed_without_reference signed_after_expiry : EsignReason
  artifact_unavailable artifact_invalid : EsignReason

-- The texts that `_apply_report` returns.
pub data EsignOutcome : Type 0 where
  duplicate_signed ignored_after_signed ignored_in_review processed ignored_terminal : EsignOutcome
  was_signed : EsignOutcome
  in_review : EsignReason → EsignOutcome

pub data EsignError : Type 0 where
  invalid_transition integrity_error esign_unavailable esign_conflict not_permitted not_found :
      EsignError

-- The attempt is the last part of the reference that is sent to the provider.
pub record Signature : Type 0 where
  pub attempt : ℕ
  pub status : EsignStatus
  pub document_checksum : ℕ
  pub provider_ref : Option String
  pub expires_at : ℕ
  pub signed_document : Option ℕ
  pub signed_at : Option ℕ

-- A transaction, whether another one of the offer is live, and the references of the others.
pub record EsignDesk : Type 0 where
  pub tx : Signature
  pub another_live : Bool
  pub refs_of_others : List String

-- What `provider.fetch_signed_document` gives; `fetch_rejected` is also the answer of no document.
pub data Fetched : Type 0 where
  fetched : ℕ → Fetched
  fetch_timeout fetch_rejected : Fetched

-- The setting on artifacts, the answers of the provider and of the document service, and the time.
pub record EsignCircumstances : Type 0 where
  pub requires_artifact : Bool
  pub fetching : Fetched
  pub is_storable : Bool
  pub now : ℕ

pub record EsignReport : Type 0 where
  pub status : EsignSays
  pub checksum : Option ℕ
  pub occurred_at : Option ℕ
  pub document : Option ℕ

abbrev pub same_esign_status : EsignStatus → EsignStatus → Bool
same_esign_status initiated initiated = true
same_esign_status pending pending = true
same_esign_status signed signed = true
same_esign_status failed failed = true
same_esign_status expired expired = true
same_esign_status manual_review manual_review = true
same_esign_status _ _ = false

-- `_move`, and `session.flush()` with the index on live transactions.
unfoldable pub move_signature : EsignStatus → EsignDesk → Result EsignError EsignDesk
move_signature new d =
    if same_esign_status d.tx.status new
    then ok d
    else if not (can_transition d.tx.status new)
    then err invalid_transition
    else if is_live new && d.another_live
    then err integrity_error
    else (let t = d.tx in ok (record d { tx = record t { status = new } }))

-- `_review`
unfoldable pub review_signature :
    EsignReason → EsignDesk → Result EsignError (EsignOutcome × EsignDesk)
review_signature reason d = move_signature manual_review d >>= λ d'. ok (in_review reason, d')

-- `occurred_at if occurred_at and occurred_at <= now else now`
abbrev pub signing_time : Option ℕ → ℕ → ℕ
signing_time none now = now
signing_time (some t) now = if leb t now then t else now

abbrev pub with_document : Option ℕ → ℕ → EsignDesk → EsignDesk
with_document none time d = let t = d.tx in record d { tx = record t { signed_at = some time } }
with_document (some doc) time d =
    let t = d.tx in record d { tx = record t { signed_at = some time; signed_document = some doc } }

unfoldable pub sign : Option ℕ → ℕ → EsignDesk → Result EsignError (EsignOutcome × EsignDesk)
sign document time d =
    move_signature signed (with_document document time d) >>= λ d'. ok (was_signed, d')

-- The artifact that is stored, if there is one.
unfoldable pub store_artifact :
    EsignCircumstances
    → Option ℕ
    → Option ℕ
    → EsignDesk
    → Result EsignError (EsignOutcome × EsignDesk)
store_artifact e occurred none d =
    if e.requires_artifact
    then review_signature artifact_unavailable d
    else sign none (signing_time occurred e.now) d
store_artifact e occurred (some artifact) d =
    if e.is_storable
    then sign (some artifact) (signing_time occurred e.now) d
    else review_signature artifact_invalid d

abbrev pub artifact_of : Option ℕ → Fetched → Result EsignError (Option ℕ)
artifact_of (some document) answer = ok (some document)
artifact_of none (fetched document) = ok (some document)
artifact_of none fetch_timeout = err esign_unavailable
artifact_of none fetch_rejected = ok none

-- `_complete_signing`
unfoldable pub complete_signing :
    EsignCircumstances
    → Option ℕ
    → Option ℕ
    → EsignDesk
    → Result EsignError (EsignOutcome × EsignDesk)
complete_signing e occurred document d =
    artifact_of document e.fetching >>= λ artifact. store_artifact e occurred artifact d

abbrev pub is_checksum : ℕ → Option ℕ → Bool
is_checksum sum none = false
is_checksum sum (some c) = c == sum

abbrev pub contradicts : ℕ → Option ℕ → Bool
contradicts sum none = false
contradicts sum (some c) = not (c == sum)

abbrev pub is_after : ℕ → Option ℕ → Bool
is_after limit none = true
is_after limit (some t) = ltb limit t

abbrev pub says_that_signed : EsignSays → Bool
says_that_signed says_signed = true
says_that_signed _ = false

abbrev pub has_checksum : Option ℕ → Bool
has_checksum none = false
has_checksum (some _) = true

-- `SIGNED` is reported.
unfoldable pub apply_signed :
    EsignCircumstances → EsignReport → EsignDesk → Result EsignError (EsignOutcome × EsignDesk)
apply_signed e r d =
    if not (same_esign_status d.tx.status pending)
    then review_signature late_signed d
    else if not (has_checksum r.checksum)
    then review_signature signed_without_reference d
    else if ltb d.tx.expires_at e.now && is_after d.tx.expires_at r.occurred_at
    then review_signature signed_after_expiry d
    else complete_signing e r.occurred_at r.document d

abbrev pub end_status : EsignSays → EsignStatus
end_status says_failed = failed
end_status _ = expired

-- A report that ends the signing without a signature.
unfoldable pub apply_ended : EsignSays → EsignDesk → Result EsignError (EsignOutcome × EsignDesk)
apply_ended says d =
    if not (same_esign_status d.tx.status pending || same_esign_status d.tx.status initiated)
    then ok (ignored_terminal, d)
    else move_signature (end_status says) d >>= λ d'. ok (processed, d')

unfoldable pub apply_esign_status :
    EsignSays
    → EsignCircumstances
    → EsignReport
    → EsignDesk
    → Result EsignError (EsignOutcome × EsignDesk)
apply_esign_status says_pending e r d = ok (processed, d)
apply_esign_status says_signed e r d = apply_signed e r d
apply_esign_status says e r d = apply_ended says d

-- `_apply_report`
unfoldable pub apply_esign_report :
    EsignCircumstances → EsignReport → EsignDesk → Result EsignError (EsignOutcome × EsignDesk)
apply_esign_report e r d =
    if same_esign_status d.tx.status signed
    then (if says_that_signed r.status && is_checksum d.tx.document_checksum r.checksum
        then ok (duplicate_signed, d)
        else ok (ignored_after_signed, d))
    else if same_esign_status d.tx.status manual_review
    then ok (ignored_in_review, d)
    else if contradicts d.tx.document_checksum r.checksum
    then review_signature document_mismatch d
    else apply_esign_status r.status e r d

-- What `provider.initiate` gives.
pub data EsignStart : Type 0 where
  started : String → EsignStart
  start_timeout start_rejected : EsignStart

-- `_start_with_provider`; the table has one row for each reference of the provider.
unfoldable pub start_with_provider : EsignStart → EsignDesk → Result EsignError EsignDesk
start_with_provider start_timeout d = err esign_unavailable
start_with_provider start_rejected d = move_signature failed d
start_with_provider (started ref) d =
    let t = d.tx in
    if is_among ref d.refs_of_others
    then err integrity_error
    else move_signature pending (record d { tx = record t { provider_ref = some ref } })

-- `initiate` of an offer that has a live transaction, with the checksum of its agreement if the
-- agreement is intact.
unfoldable pub resume_signing : Option ℕ → EsignStart → EsignDesk → Result EsignError EsignDesk
resume_signing agreement answer d =
    if not (same_esign_status d.tx.status initiated)
    then ok d
    else if not (is_checksum d.tx.document_checksum agreement)
    then err esign_conflict
    else start_with_provider answer d

pub data EsignDecision : Type 0 where
  decide_recheck decide_failed : EsignDecision

-- What `provider.get_status` gives; there is no report of a transaction without a reference.
pub data EsignLookup : Type 0 where
  looked_up : EsignReport → EsignLookup
  no_reference unreachable : EsignLookup

abbrev pub confirms_signed : EsignReport → EsignDesk → Bool
confirms_signed r d = says_that_signed r.status && is_checksum d.tx.document_checksum r.checksum

abbrev pub if_signed : EsignOutcome × EsignDesk → Result EsignError EsignDesk
if_signed (was_signed, d) = ok d
if_signed (outcome, d) = err esign_conflict

unfoldable pub recheck_signature :
    EsignSays → EsignCircumstances → EsignReport → EsignDesk → Result EsignError EsignDesk
recheck_signature says_pending e r d = err esign_conflict
recheck_signature says_signed e r d =
    if confirms_signed r d then complete_signing e none none d >>= if_signed else err esign_conflict
recheck_signature says e r d = move_signature failed d

unfoldable pub resolve :
    EsignDecision → EsignLookup → EsignCircumstances → EsignDesk → Result EsignError EsignDesk
resolve decision unreachable e d = err esign_unavailable
resolve decide_recheck no_reference e d = err esign_conflict
resolve decide_failed no_reference e d = move_signature failed d
resolve decide_recheck (looked_up r) e d = recheck_signature r.status e r d
resolve decide_failed (looked_up r) e d =
    if confirms_signed r d then err esign_conflict else move_signature failed d

-- The admin who reviews, and the length of the stripped reason.
pub record EsignReviewer : Type 0 where
  pub is_permitted : Bool
  pub is_signer : Bool
  pub reason_length : ℕ

-- `resolve_review` of the transaction that is live, by an admin.
unfoldable pub resolve_review :
    EsignReviewer
    → EsignDecision
    → EsignLookup
    → EsignCircumstances
    → EsignDesk
    → Result EsignError EsignDesk
resolve_review a decision lookup e d =
    if not a.is_permitted
    then err not_permitted
    else if ltb a.reason_length 10
    then err esign_conflict
    else if not (same_esign_status d.tx.status manual_review)
    then err esign_conflict
    else if a.is_signer
    then err not_permitted
    else resolve decision lookup e d

-- What is done with a report that the service asked for; the text that it gets is dropped.
abbrev pub without_outcome :
    Result EsignError (EsignOutcome × EsignDesk) → Result EsignError EsignDesk
without_outcome (ok (outcome, d)) = ok d
without_outcome (err e) = err e

unfoldable pub sync_report :
    EsignSays → EsignCircumstances → EsignReport → EsignDesk → Result EsignError EsignDesk
sync_report says_pending e r d =
    if leb d.tx.expires_at e.now then move_signature expired d else ok d
sync_report says_other e r d = if leb d.tx.expires_at e.now then move_signature expired d else ok d
sync_report says e r d =
    without_outcome (apply_esign_report e (record r { occurred_at = none; document = none }) d)

unfoldable pub sync_lookup :
    EsignLookup → EsignCircumstances → EsignDesk → Result EsignError EsignDesk
sync_lookup (looked_up r) e d = sync_report r.status e r d
sync_lookup lookup e d = err esign_unavailable

unfoldable pub sync_initiated :
    Bool → EsignStart → EsignCircumstances → EsignDesk → Result EsignError EsignDesk
sync_initiated is_intact answer e d =
    if leb d.tx.expires_at e.now
    then move_signature expired d
    else if not is_intact
    then err esign_conflict
    else start_with_provider answer d

-- `sync_pending` of one transaction of the batch; the flag says whether the agreement of the offer is
-- intact.
unfoldable pub sync_signature :
    Bool → EsignStart → EsignLookup → EsignCircumstances → EsignDesk → Result EsignError EsignDesk
sync_signature is_intact answer lookup e d =
    if same_esign_status d.tx.status initiated
    then sync_initiated is_intact answer e d
    else if same_esign_status d.tx.status pending
    then sync_lookup lookup e d
    else ok d
