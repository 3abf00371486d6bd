-- ===== src/Ledger/Inversion.antt =====
-- How a posting that succeeded went (`post` of app/services/ledger.py): a replay of the key, a
-- race that was lost, or a new header with its entries.
use inpockets.Base.{
  ℕ, String, ◌≡◌, ◌⊎◌, List, arith, Option, none, some, ok, >>=-eq-ok, Result-cases, Option-cases,
  inl, inr,
}
use inpockets.Ledger.Lines.{IsBalanced, validate_lines_iff}
use inpockets.Ledger.{TxKind, reversal_of, Line, validate_lines, Payload, payload}
use inpockets.Ledger.Tables.{
  Transaction, Books, IdempotencyKey, get_by_key, get_by_id, get_reversal_of, insert_header,
  insert_entries,
}
use inpockets.Ledger.Posting.{
  Posting, header, check_accounts, entry_rows, same_or_conflict, finish_post, post_new, post,
  reverse, reversal_posting,
}

-- The header and the entries were inserted.
pub record Inserted (others : Books → Books) (p : Posting) (digest : ℕ) (clean : List Line)
    (b : Books) (t : Option Transaction) (b' : Books) : Type 0 where
  pub ids : List ℕ
  pub id : ℕ
  pub held : Books
  pub accounts_known : check_accounts b clean ≡ ok ids
  pub header_in : insert_header (header p digest clean) (others b) ≡ ok (some id, held)
  pub books : b' ≡ insert_entries (entry_rows id 1 ids clean) held
  pub row : t ≡ get_by_id id b'

-- The key was there by the time of the insertion, and its row was returned.
pub record Lost (others : Books → Books) (p : Posting) (digest : ℕ) (clean : List Line)
    (t : Option Transaction) (b b' : Books) : Type 0 where
  pub winner : Transaction
  pub header_out : insert_header (header p digest clean) (others b) ≡ ok (none, b')
  pub same : same_or_conflict (get_by_key p.idempotency_key b') digest ≡ ok winner
  pub row : t ≡ some winner

-- The key was there from the start.
pub record Replayed (p : Posting) (digest : ℕ) (b : Books) (t : Option Transaction) (b' : Books)
    : Type 0 where
  pub existing : Transaction
  pub found : get_by_key p.idempotency_key b ≡ some existing
  pub same : existing.payload_hash ≡ digest
  pub row : t ≡ some existing
  pub unchanged : b' ≡ b

module _ (sha256 : Payload → ℕ) (others : Books → Books) (p : Posting) (b : Books)
    (t : Option Transaction) (b' : Books) where
  post_new_inversion :
      (digest : ℕ) (clean : List Line)
      → post_new sha256 others p digest clean b ≡ ok (t, b')
      → Inserted others p digest clean b t b' ⊎ Lost others p digest clean t b b'
  unfolding post_new finish_post
  post_new_inversion digest clean h =
      let (ids, known, h1) = >>=-eq-ok _ _ h in
      let (put, e, h2) = >>=-eq-ok _ _ h1 in go ids known put.0 put.1 e h2
    where
      go :
          (ids : List ℕ)
          → check_accounts b clean ≡ ok ids
          → (inserted : Option ℕ) (held : Books)
          → insert_header (header p digest clean) (others b) ≡ ok (inserted, held)
          → finish_post p digest clean ids (inserted, held) ≡ ok (t, b')
          → Inserted others p digest clean b t b' ⊎ Lost others p digest clean t b b'
      go ids known none held e h =
          let (w, same, e2) =
            >>=-eq-ok (same_or_conflict (get_by_key p.idempotency_key held) digest) _ h in
          let at : held ≡ b' = ground arith in
          inr (record {
            winner = w;
            header_out = rw (← at) e;
            same = rw (← at) same;
            row = ground arith;
          })
      go ids known (some id) held e h = inl (record {
        ids = ids;
        id = id;
        held = held;
        accounts_known = known;
        header_in = e;
        books = ground arith;
        row = ground arith;
      })

  -- A posting that succeeds has balanced lines, and went one of the three ways.
  pub post_inversion :
      post sha256 others p b ≡ ok (t, b')
      → let digest = sha256 (payload p.kind p.loan_offer_id p.lines) in
        IsBalanced p.lines
        × (Inserted others p digest p.lines b t b'
            ⊎ Lost others p digest p.lines t b b'
            ⊎ Replayed p digest b t b')
  unfolding post same_or_conflict
  post_inversion h = elim (Result-cases (validate_lines p.lines)) [
    | inr (e, bad) ↦ absurd (ground (arith, bad))
    | inl (clean, accepted) ↦
        (let (same, balanced) = (validate_lines_iff p.lines clean).0 accepted in
          let valid : validate_lines p.lines ≡ ok p.lines = rw same at accepted in
          let digest : ℕ = sha256 (payload p.kind p.loan_offer_id p.lines) in
          (
            balanced,
            (elim (Option-cases (get_by_key p.idempotency_key b)) [
              | inl new ↦ elim (post_new_inversion digest p.lines (ground (arith, valid, new))) [
                | inl put ↦ inl put
                | inr lost ↦ inr (inl lost)
              ]
              | inr (x, found) ↦ inr (
                  inr (record {
                    existing = x;
                    found = found;
                    same = ground (arith, valid, found);
                    row = ground (arith, valid, found);
                    unchanged = ground (arith, valid, found);
                  }))
            ]),
          ))
  ]

-- How a reversal that succeeded went: it had been made before, or it is a posting of the mirror.
pub record Reversed (sha256 : Payload → ℕ) (others : Books → Books) (id : ℕ) (key : IdempotencyKey)
    (source : String) (source_id : ℕ) (reason : String) (b : Books) (t : Option Transaction)
    (b' : Books) : Type 0 where
  pub original : Transaction
  pub kind : TxKind
  pub found : get_by_id id b ≡ some original
  pub may_reverse : reversal_of original.kind ≡ some kind
  pub outcome :
      ((done : Transaction) × (get_reversal_of original.id b ≡ some done)
        × (t ≡ some done)
        × (b' ≡ b))
      ⊎ ((get_reversal_of original.id b ≡ none)
          × (post sha256 others (reversal_posting original kind key source source_id reason b) b
              ≡ ok (t, b')))

pub reverse_inversion :
    (sha256 : Payload → ℕ) (others : Books → Books) (id : ℕ) (key : IdempotencyKey)
    (source : String) (source_id : ℕ) (reason : String) (b : Books) (t : Option Transaction)
    (b' : Books)
    → reverse sha256 others id key source source_id reason b ≡ ok (t, b')
    → Reversed sha256 others id key source source_id reason b t b'
unfolding reverse
reverse_inversion sha256 others id key source source_id reason b t b' h =
    elim (Option-cases (get_by_id id b)) [
      | inl e ↦ absurd (ground (arith, e))
      | inr (original, found) ↦ elim (Option-cases (reversal_of original.kind)) [
        | inl e ↦ absurd (ground (arith, found, e))
        | inr (kind, may_reverse) ↦ record {
          original = original;
          kind = kind;
          found = found;
          may_reverse = may_reverse;
          outcome = elim (Option-cases (get_reversal_of original.id b)) [
            | inl e ↦ inr (e, ground (arith, found, may_reverse, e))
            | inr (done, e) ↦ inl (
              done,
              e,
              ground (arith, found, may_reverse, e),
              ground (arith, found, may_reverse, e),
            )
          ];
        }
      ]
    ]
