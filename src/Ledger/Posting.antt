-- ===== src/Ledger/Posting.antt =====
-- The service that posts to the ledger (app/services/ledger.py). An exception leaves the caller's
-- database transaction to be rolled back, so a call gives new books only if it succeeds.
use inpockets.Base.{
  ℕ, suc, ◌==◌, String, not, List, [], ◌∷◌, Option, none, some, if◌then◌else◌, Result, ok, err,
  raise_if, ◌>>=◌, ◌>>◌, length,
}
use inpockets.Base.Decimal.{paise}
use inpockets.Ledger.{
  TxKind, Line, LedgerError, not_found, conflict, attribute_error, validate_lines, total_of,
  payload, Payload, mirror, reversal_of,
}
use inpockets.Ledger.Tables.{
  IdempotencyKey, Transaction, Entry, Books, account_by_code, get_by_key, get_by_id,
  get_reversal_of, insert_header, insert_entries, entries_with_accounts,
}

-- The arguments of `post`.
pub record Posting : Type 0 where
  pub kind : TxKind
  pub idempotency_key : IdempotencyKey
  pub source_type : String
  pub source_id : ℕ
  pub loan_offer_id : ℕ
  pub user_id : ℕ
  pub lines : List Line
  pub reverses_transaction_id : Option ℕ
  pub reason : Option String

abbrev pub or_raise : {A : Type 0} → Option A → LedgerError → Result LedgerError A
or_raise none e = err e
or_raise (some a) e = ok a

-- The loop over the lines that looks up their accounts, with the ids that the entries take.
unfoldable pub check_accounts : Books → List Line → Result LedgerError (List ℕ)
check_accounts b [] = ok []
check_accounts b (ln ∷ rest) = do
  account ← or_raise (account_by_code ln.account_code b) not_found
  raise_if (not account.is_active) conflict
  ids ← check_accounts b rest
  ok (account.id ∷ ids)

unfoldable pub entry_rows : ℕ → ℕ → List ℕ → List Line → List Entry
entry_rows tx_id i (account ∷ accounts) (ln ∷ lines) =
    record {
      transaction_id = tx_id;
      line_no = i;
      account_id = account;
      direction = ln.direction;
      amount = paise ln.amount;
    }
    ∷ entry_rows tx_id (suc i) accounts lines
entry_rows tx_id i _ _ = []

-- `_same_or_conflict`; `None` has no `payload_hash`.
unfoldable pub same_or_conflict : Option Transaction → ℕ → Result LedgerError Transaction
same_or_conflict none digest = err attribute_error
same_or_conflict (some existing) digest =
    if existing.payload_hash == digest then ok existing else err conflict

unfoldable pub header : Posting → ℕ → List Line → ℕ → Transaction
header p digest clean id = record {
  id = id;
  kind = p.kind;
  idempotency_key = p.idempotency_key;
  payload_hash = digest;
  source_type = p.source_type;
  source_id = p.source_id;
  loan_offer_id = p.loan_offer_id;
  user_id = p.user_id;
  entry_count = length clean;
  total_amount = total_of clean;
  reverses_transaction_id = p.reverses_transaction_id;
  reason = p.reason;
}

-- The end of `post`, once the insertion of the header has answered.
unfoldable pub finish_post :
    Posting
    → ℕ
    → List Line
    → List ℕ
    → Option ℕ × Books
    → Result LedgerError (Option Transaction × Books)
finish_post p digest clean ids (none, b) =
    same_or_conflict (get_by_key p.idempotency_key b) digest >>= λ t. ok (some t, b)
finish_post p digest clean ids (some tx_id, b) =
    let b' = insert_entries (entry_rows tx_id 1 ids clean) b in ok (get_by_id tx_id b', b')

-- What `reverse` posts: the mirror of the original's entries, linked to it.
unfoldable pub reversal_posting :
    Transaction → TxKind → IdempotencyKey → String → ℕ → String → Books → Posting
reversal_posting original kind key source_type source_id reason b = record {
  kind = kind;
  idempotency_key = key;
  source_type = source_type;
  source_id = source_id;
  loan_offer_id = original.loan_offer_id;
  user_id = original.user_id;
  lines = mirror (entries_with_accounts original.id b);
  reverses_transaction_id = some original.id;
  reason = some reason;
}

-- `sha256` is `hashlib.sha256` on the payload's text. `others` is what other sessions commit
-- between the look-up of the key and the insertion of the header.
module _ (sha256 : Payload → ℕ) (others : Books → Books) where
  -- The rest of `post` once the key has not been found.
  unfoldable pub post_new :
      Posting → ℕ → List Line → Books → Result LedgerError (Option Transaction × Books)
  unfolding header
  post_new p digest clean b = check_accounts b clean >>= λ ids.
      insert_header (header p digest clean) (others b) >>= finish_post p digest clean ids

  unfoldable pub post : Posting → Books → Result LedgerError (Option Transaction × Books)
  post p b = validate_lines p.lines >>= λ clean. elim (get_by_key p.idempotency_key b) [
    | some existing ↦
        same_or_conflict (some existing) (sha256 (payload p.kind p.loan_offer_id clean)) >>= λ t.
        ok (some t, b)
    | none ↦ post_new p (sha256 (payload p.kind p.loan_offer_id clean)) clean b
  ]

  -- The arguments of `reverse` are the id of the original, the new key, the source and the reason.
  unfoldable pub reverse :
      ℕ
      → IdempotencyKey
      → String
      → ℕ
      → String
      → Books
      → Result LedgerError (Option Transaction × Books)
  reverse original_id key source_type source_id reason b =
      or_raise (get_by_id original_id b) not_found >>= λ original.
      or_raise (reversal_of original.kind) conflict >>= λ kind.
      elim (get_reversal_of original.id b) [
        | some done ↦ ok (some done, b)
        | none ↦ post (reversal_posting original kind key source_type source_id reason b) b
      ]
