-- ===== src/Examples/Signing.antt =====
-- Runs of the e-signature service (app/services/esign.py): the provider reports a
-- signature, and a start of signing is repeated after a time-out.
use inpockets.Base.{true, false, none, some, [], ◌∷◌}
use inpockets.Statuses.Esign.{pending}
use inpockets.Esign.{EsignDesk, says_signed, fetched}
use inpockets.Esign.Initiating.{EsignRequest}
use inpockets.Esign.Proving.{Ends}
use inpockets.Esign.Calls.{EsignCall, esign_callback, call_esign, CallProof, call_esign-Ends}

abbrev waiting : EsignDesk
waiting = record {
  tx = record {
    attempt = 1;
    status = pending;
    document_checksum = 1234;
    provider_ref = some "sig-1";
    expires_at = 900;
    signed_document = none;
    signed_at = none;
  };
  another_live = false;
  refs_of_others = "sig-9" ∷ [];
}

abbrev signed_call : EsignCall
signed_call =
    esign_callback
      (record { requires_artifact = true; fetching = fetched 77; is_storable = true; now = 500 })
      (record {
        status = says_signed;
        checksum = some 1234;
        occurred_at = some 480;
        document = none;
      })

call_esign-Ends_example :
    Ends (CallProof signed_call waiting) waiting (call_esign signed_call waiting)
call_esign-Ends_example = call_esign-Ends signed_call waiting

abbrev accepted_offer : EsignRequest
accepted_offer = record {
  is_owner = true;
  is_accepted = true;
  agreement = some 1234;
  now = 100;
  validity = 800;
  refs_of_others = "sig-9" ∷ [];
}
