-- ===== src/Ledger/Reversing.antt =====
-- What a reversal does to the books (`reverse` of app/services/ledger.py).
use inpockets.Base.{◌≡◌, ◌⊎◌, List, [], ◌∷◌, ◌++◌, Option, some}
use inpockets.Base.Decimal.{paise}
use inpockets.Ledger.{Line, is_debit, is_credit, reversal_of}
use inpockets.Ledger.Tables.{
  Account, account_by_code, Transaction, Entry, Books, IdempotencyKey, get_by_id, get_by_key,
  get_reversal_of, entries_with_accounts,
}

-- One entry for each line, in its order: in the same account, for the same amount, on the other
-- side.
abbrev pub Opposes : Books → List Line → List Entry → Type 0
Opposes b [] [] = Unit
Opposes b (ln ∷ lines) (e ∷ es) =
    ((a : Account) × (account_by_code ln.account_code b ≡ some a) × (e.account_id ≡ a.id))
    × (is_debit e.direction ≡ is_credit ln.direction)
    × (e.amount ≡ paise ln.amount)
    × Opposes b lines es
Opposes b _ _ = ⊥

-- A transaction that is new in the books: of the kind that reverses the original, linked to it, for
-- the same loan, with the entries that oppose those of the original.
pub record IsReversal (others : Books → Books) (original : Transaction) (b : Books)
    (t : Option Transaction) (b' : Books) : Type 0 where
  pub tx : Transaction
  pub returned : t ≡ get_by_id tx.id b'
  pub transactions : b'.transactions ≡ (others b).transactions ++ tx ∷ []
  pub kind : reversal_of original.kind ≡ some tx.kind
  pub link : tx.reverses_transaction_id ≡ some original.id
  pub loan : tx.loan_offer_id ≡ original.loan_offer_id
  pub rows : List Entry
  pub entries : b'.entries ≡ (others b).entries ++ rows
  pub opposing : Opposes b (entries_with_accounts original.id b) rows

-- How a reversal may end: the original was reversed before, and that reversal is returned; or the key
-- was there, before or meanwhile; or the reversal is in the books.
abbrev pub HasReversed :
    (Books → Books) → IdempotencyKey → Transaction → Books → Option Transaction → Books → Type 0
HasReversed others key original b t b' =
    ((done : Transaction) × (get_reversal_of original.id b ≡ some done)
      × (t ≡ some done)
      × (b' ≡ b))
    ⊎ ((existing : Transaction) × (get_by_key key b' ≡ some existing)
        × (t ≡ some existing)
        × ((b' ≡ b) ⊎ (b' ≡ others b)))
    ⊎ IsReversal others original b t b'
