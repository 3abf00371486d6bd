-- ===== src/Esign/Initiating.antt =====
-- The start of signing for an offer under its lock, `initiate` (app/services/esign.py), with the live
-- transaction of the offer, if there is one (app/repositories/esign.py). The row is committed also where the provider does not answer.
use inpockets.Base.{
  ℕ, ◌+◌, ◌≡◌, Bool, true, false, not, List, String, Option, none, some, if◌then◌else◌, Result, ok,
  err,
}
use inpockets.Statuses.Esign.{EsignStatus, initiated, pending, is_live}
use inpockets.Esign.{
  EsignDesk, EsignError, esign_unavailable, esign_conflict, not_found, EsignStart,
  start_with_provider, resume_signing,
}

-- Whose offer it is, its status, the checksum of its agreement if that is intact, the settings, and
-- the references of the transactions that the table has.
pub record EsignRequest : Type 0 where
  pub is_owner : Bool
  pub is_accepted : Bool
  pub agreement : Option ℕ
  pub now : ℕ
  pub validity : ℕ
  pub refs_of_others : List String

-- The transactions of an offer: how many there are, and the one that is live.
pub record EsignOffer : Type 0 where
  pub attempts : ℕ
  pub live : Option EsignDesk

abbrev pub new_signature : EsignRequest → ℕ → ℕ → EsignDesk
new_signature q attempts sum = record {
  tx = record {
    attempt = attempts + 1;
    status = initiated;
    document_checksum = sum;
    provider_ref = none;
    expires_at = q.now + q.validity;
    signed_document = none;
    signed_at = none;
  };
  another_live = false;
  refs_of_others = q.refs_of_others;
}

-- `get_live_for_offer`, of a transaction that no other one is live beside.
unfoldable pub live_signature : EsignDesk → Option EsignDesk
live_signature d = if is_live d.tx.status then some d else none

-- What is committed: after a time-out the row stays as it was before the call of the provider. The
-- flag says whether the caller gets the transaction or the error.
unfoldable pub committed :
    ℕ → EsignDesk → Result EsignError EsignDesk → Result EsignError (Bool × EsignDesk × EsignOffer)
committed attempts d (ok d') =
    ok (true, d', record { attempts = attempts; live = live_signature d' })
committed attempts d (err esign_unavailable) =
    ok (false, d, record { attempts = attempts; live = live_signature d })
committed attempts d (err e) = err e

unfoldable pub create_signature :
    EsignRequest → EsignStart → ℕ → Option ℕ → Result EsignError (Bool × EsignDesk × EsignOffer)
create_signature q answer attempts none = err esign_conflict
create_signature q answer attempts (some sum) =
    let d = new_signature q attempts sum in
    committed (attempts + 1) d (start_with_provider answer d)

unfoldable pub resume_or_create :
    EsignRequest
    → EsignStart
    → ℕ
    → Option EsignDesk
    → Result EsignError (Bool × EsignDesk × EsignOffer)
resume_or_create q answer attempts none = create_signature q answer attempts q.agreement
resume_or_create q answer attempts (some d) =
    committed attempts d (resume_signing q.agreement answer d)

-- `initiate`
unfoldable pub initiate_signing :
    EsignRequest → EsignStart → EsignOffer → Result EsignError (Bool × EsignDesk × EsignOffer)
initiate_signing q answer o =
    if not q.is_owner
    then err not_found
    else if not q.is_accepted
    then err esign_conflict
    else resume_or_create q answer o.attempts o.live

abbrev pub with_attempts : ℕ → EsignOffer
with_attempts n = record { attempts = n; live = none }

-- What a repetition of the request gives, by the status of the transaction.
abbrev pub Repeats : EsignRequest → EsignStart → ℕ → EsignDesk → EsignOffer → EsignStatus → Type 0
Repeats q again n d o pending = initiate_signing q again o ≡ ok (true, d, o)
Repeats q again n d o initiated =
    initiate_signing q again o ≡ initiate_signing q again (with_attempts n)
Repeats q again n d o _ =
    initiate_signing q again o ≡ initiate_signing q again (with_attempts (n + 1))

abbrev Again :
    EsignRequest → EsignStart → ℕ → Result EsignError (Bool × EsignDesk × EsignOffer) → Type 0
Again q again n (err e) = Unit
Again q again n (ok (b, d, o)) =
    (d.tx.attempt ≡ n + 1) × (o.attempts ≡ n + 1) × Repeats q again n d o d.tx.status
